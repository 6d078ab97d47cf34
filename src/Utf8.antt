-- ===== src/Utf8.antt =====
-- oblig1_chattsystem/src/protocol/secp.cpp, `valid_utf8`.
pub mod Scalars
pub mod Round
pub mod Decode
pub mod Text
use nettverk.Prelude.{
  ℕ, zero, suc, Bool, true, false, ◌&&◌, Option, none, some, [], ◌∷◌, Bytes, get_elem?, length, ltb,
  leb, ◌==◌, if◌then◌else◌,
}
use Prim.Native.Nat.{bit_and}

-- `(b & 0xC0u) == 0x80u`
unfoldable pub is_cont : ℕ → Bool
is_cont b = bit_and b 0xC0 == 0x80

-- The lambda `cont(i + 1 + j)`: the index is in range and the byte there is a continuation byte.
unfoldable pub cont : Bytes → ℕ → Bool
cont s j = elim (get_elem? s j) [ none ↦ false | some b ↦ is_cont b ]

-- `p[i + 1 + j]`, read behind a test of the length.
abbrev pub at : Bytes → ℕ → ℕ
at s j = elim (get_elem? s j) [ none ↦ 0 | some b ↦ b ]

-- The branches that read two bytes, of which the first must lie between two bounds.
unfoldable pub ranged_2 : Bytes → ℕ → ℕ → Option ℕ
ranged_2 s lo hi =
    if ltb 1 (length s)
    then if leb lo (at s 0) && leb (at s 0) hi
      then if is_cont (at s 1) then some 3 else none
      else none
    else none

-- The branches that read three bytes.
unfoldable pub ranged_3 : Bytes → ℕ → ℕ → Option ℕ
ranged_3 s lo hi =
    if ltb 2 (length s)
    then if leb lo (at s 0) && leb (at s 0) hi
      then if is_cont (at s 1) && is_cont (at s 2) then some 4 else none
      else none
    else none

-- One round of the loop at the lead byte `b0` with `s` behind it: by how much `i` grows, or `none`
-- for `return false`.
unfoldable pub advance : ℕ → Bytes → Option ℕ
advance b0 s =
    if leb b0 0x7F
    then some 1
    else if leb 0xC2 b0 && leb b0 0xDF
    then if cont s 0 then some 2 else none
    else if b0 == 0xE0
    then ranged_2 s 0xA0 0xBF
    else if leb 0xE1 b0 && leb b0 0xEC
    then if cont s 0 && cont s 1 then some 3 else none
    else if b0 == 0xED
    then ranged_2 s 0x80 0x9F
    else if leb 0xEE b0 && leb b0 0xEF
    then if cont s 0 && cont s 1 then some 3 else none
    else if b0 == 0xF0
    then ranged_3 s 0x90 0xBF
    else if leb 0xF1 b0 && leb b0 0xF3
    then if cont s 0 && cont s 1 && cont s 2 then some 4 else none
    else if b0 == 0xF4
    then ranged_3 s 0x80 0x8F
    else none

-- The loop `while (i < n)`. The first argument counts the bytes that `i += k` still jumps over.
unfoldable pub scan : ℕ → Bytes → Bool
scan skip [] = true
scan zero (b0 ∷ s) = elim (advance b0 s) [
  | none ↦ false
  | some zero ↦ scan zero s
  | some (suc k) ↦ scan k s
]
scan (suc k) (b0 ∷ s) = scan k s

unfoldable pub valid_utf8 : Bytes → Bool
unfolding scan advance cont ranged_2 ranged_3 is_cont
valid_utf8 s = scan 0 s
