-- ===== src/Utf8/Scalars.antt =====
-- The loop of `valid_utf8` in secp.cpp, one round at a time, against the encoding of one code point.
use nettverk.Prelude.{
  ℕ, zero, suc, ◌+◌, ◌/◌, ◌%◌, ◌≤◌, ◌<◌, ◌≡◌, ◌⊎◌, refl, Bool, true, false, ◌&&◌, not, some, ◌∷◌,
  arith, Bytes, ltb, leb,
}
use nettverk.Utf8.{is_cont, cont, ranged_2, ranged_3, advance}

-- A Unicode scalar value: a code point that is no surrogate.
abbrev pub IsScalar : ℕ → Type 0
IsScalar c = (c < 0xD800) ⊎ ((0xE000 ≤ c) × (c < 0x110000))

all_below : ℕ → (ℕ → Bool) → Bool
all_below zero p = true
all_below (suc n) p = p n && all_below n p

all_below_lem : (n : ℕ) (p : ℕ → Bool) (x : ℕ) → all_below n p ≡ true → x < n → p x ≡ true
unfolding all_below
all_below_lem zero p x h lt = absurd (omega arith)
all_below_lem (suc n) p x h lt = ground (arith, all_below_lem n p x)

abbrev same : Bool → Bool → Bool
same true b = b
same false b = not b

cont_table : all_below 256 (λ b. same (is_cont b) (leb 0x80 b && ltb b 0xC0)) ≡ true
unfolding all_below is_cont
cont_table = refl

-- The mask test of a byte is a range test.
pub is_cont-eq : (b : ℕ) → b < 256 → is_cont b ≡ (leb 0x80 b && ltb b 0xC0)
is_cont-eq b h =
    ground
      (arith, all_below_lem 256 (λ b. same (is_cont b) (leb 0x80 b && ltb b 0xC0)) b cont_table)

is_cont_tail : (x : ℕ) → x < 64 → is_cont (0x80 + x) ≡ true
is_cont_tail x h = ground (arith, is_cont-eq (0x80 + x))

-- A scalar value's encoding is accepted in one round, over all its bytes.
pub advance-encode_1 : (c : ℕ) (s : Bytes) → c < 0x80 → advance c s ≡ some 1
unfolding advance cont ranged_2 ranged_3
advance-encode_1 c s h = ground arith

pub advance-encode_2 :
    (c : ℕ) (s : Bytes)
    → 0x80 ≤ c
    → c < 0x800
    → advance (0xC0 + c / 64) ((0x80 + c % 64) ∷ s) ≡ some 2
unfolding advance cont ranged_2 ranged_3
advance-encode_2 c s h k = ground (arith, is_cont_tail (c % 64))

pub advance-encode_3 :
    (c : ℕ) (s : Bytes)
    → 0x800 ≤ c
    → c < 0x10000
    → IsScalar c
    → advance (0xE0 + c / 4096) ((0x80 + c / 64 % 64) ∷ (0x80 + c % 64) ∷ s) ≡ some 3
unfolding advance cont ranged_2 ranged_3
advance-encode_3 c s h k sc = ground (arith, is_cont_tail (c / 64 % 64), is_cont_tail (c % 64))

pub advance-encode_4 :
    (c : ℕ) (s : Bytes)
    → 0x10000 ≤ c
    → c < 0x110000
    → advance
        (0xF0 + c / 262144)
        ((0x80 + c / 4096 % 64) ∷ (0x80 + c / 64 % 64) ∷ (0x80 + c % 64) ∷ s)
      ≡ some 4
unfolding advance cont ranged_2 ranged_3
advance-encode_4 c s h k =
    ground (arith, is_cont_tail (c / 4096 % 64), is_cont_tail (c / 64 % 64), is_cont_tail (c % 64))
