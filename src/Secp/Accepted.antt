-- ===== src/Secp/Accepted.antt =====
-- Fields that the checks of secp.cpp accept whatever the program puts into them.
use nettverk.Prelude.{
  ℕ, ◌≤◌, ◌<◌, ◌≡◌, refl, true, [], ◌∷◌, ◌++◌, arith, Bytes, All, length, length-append, bytes_eq,
  append-nil, subst,
}
use nettverk.Utf8.{valid_utf8}
use nettverk.Utf8.Text.{valid_utf8-ascii}
use nettverk.Secp.{
  pipe, newline, carriage_return, contains_pipe_or_newline, is_clean, is_room_ok, is_username_ok,
  is_payload_ok,
}
use nettverk.Secp.Fields.{IsPlain, username_ok}

-- Bytes that are ASCII and no separator.
abbrev pub IsWord : ℕ → Type 0
IsWord c = (c < 0x80) × (c ≡ pipe → ⊥) × (c ≡ newline → ⊥) × (c ≡ carriage_return → ⊥)

word-IsPlain : (p s : Bytes) → All IsWord p → IsPlain s → IsPlain (p ++ s)
unfolding contains_pipe_or_newline
word-IsPlain [] s w h = h
word-IsPlain (c ∷ p) s w h = ground (arith, word-IsPlain p s w.1 h)

word_ascii : (p : Bytes) → All IsWord p → All (λ c. c < 0x80) p
word_ascii [] w = tt
word_ascii (c ∷ p) w = (w.0.0, word_ascii p w.1)

-- Words in front of a text keep it acceptable.
pub word-is_clean : (p s : Bytes) → All IsWord p → is_clean s ≡ true → is_clean (p ++ s) ≡ true
unfolding is_clean
word-is_clean p s w h = ground (arith, word-IsPlain p s w, valid_utf8-ascii p s (word_ascii p w))

is_clean-nil : is_clean [] ≡ true
unfolding is_clean contains_pipe_or_newline valid_utf8
is_clean-nil = refl

pub word_clean : (p : Bytes) → All IsWord p → is_clean p ≡ true
word_clean p w = subst (λ s. is_clean s ≡ true) (append-nil p) (word-is_clean p [] w is_clean-nil)

pub username_clean : (u : Bytes) → is_username_ok u ≡ true → is_clean u ≡ true
unfolding is_username_ok
username_clean u h = ground arith

-- A room of two to thirty-two word bytes.
pub word-is_room_ok :
    (a b : ℕ) (p : Bytes) → All IsWord (a ∷ b ∷ p) → length p ≤ 30 → is_room_ok (a ∷ b ∷ p) ≡ true
unfolding is_room_ok bytes_eq
word-is_room_ok a b p w h = ground (arith, word_clean (a ∷ b ∷ p) w)

-- A payload that begins with two word bytes and ends with a user's name.
pub word-is_payload_ok :
    (a b : ℕ) (p u : Bytes)
    → All IsWord (a ∷ b ∷ p)
    → length p ≤ 400
    → is_username_ok u ≡ true
    → is_payload_ok (a ∷ b ∷ p ++ u) ≡ true
unfolding is_payload_ok bytes_eq
word-is_payload_ok a b p u w h ok = ground (
  arith,
  word-is_clean (a ∷ b ∷ p) u w (username_clean u ok),
  length-append p u,
  username_ok u ok,
)
