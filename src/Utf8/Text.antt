-- ===== src/Utf8/Text.antt =====
-- `valid_utf8` of secp.cpp accepts exactly the UTF-8 encodings of scalar values.
use nettverk.Prelude.{
  ℕ, zero, suc, ◌≡◌, ◌↔◌, ◌<◌, ◌∙◌, ap, refl, true, List, [], ◌∷◌, ◌++◌, arith, Bytes, encode, All,
  drop, Option-cases, inl, inr,
}
use nettverk.Utf8.{scan, advance, valid_utf8}
use nettverk.Utf8.Scalars.{
  IsScalar, advance-encode_1, advance-encode_2, advance-encode_3, advance-encode_4,
}
use nettverk.Utf8.Decode.{IsByte, advance-Consumes}

unfoldable pub encode_all : List ℕ → Bytes
encode_all [] = []
encode_all (c ∷ cs) = encode c ++ encode_all cs

-- The text is the encoding of a sequence of scalar values.
abbrev pub IsEncoded : Bytes → Type 0
IsEncoded s = (cs : List ℕ) × All IsScalar cs × (s ≡ encode_all cs)

scan-IsEncoded : (k : ℕ) (s : Bytes) → All IsByte s → scan k s ≡ true → IsEncoded (drop k s)
unfolding scan encode_all
scan-IsEncoded zero [] bs h = ([], tt, refl)
scan-IsEncoded (suc k) [] bs h = ([], tt, refl)
scan-IsEncoded (suc k) (b ∷ s) bs h = scan-IsEncoded k s bs.1 h
scan-IsEncoded zero (b ∷ s) bs h = elim (Option-cases (advance b s)) [
  | inl e ↦ absurd (ground arith)
  | inr (k, e) ↦
      let (j, more, (c, scalar, spelt)) = advance-Consumes b s k bs.1 e in
      let (cs, scalars, rest) = scan-IsEncoded j s bs.1 (ground arith) in
      (c ∷ cs, (scalar, scalars), spelt ∙ ap (λ r. encode c ++ r) rest)
]

scan-drop : (k : ℕ) (s : Bytes) → scan k s ≡ scan 0 (drop k s)
unfolding scan
scan-drop zero s = refl
scan-drop (suc k) [] = refl
scan-drop (suc k) (b ∷ s) = scan-drop k s

scan-encode : (c : ℕ) (s : Bytes) → IsScalar c → scan 0 (encode c ++ s) ≡ scan 0 s
unfolding scan encode
scan-encode c s h =
    ground (
      arith,
      advance-encode_1 c s,
      advance-encode_2 c s,
      advance-encode_3 c s,
      advance-encode_4 c s,
    )

scan-encode_all : (cs : List ℕ) → All IsScalar cs → scan 0 (encode_all cs) ≡ true
unfolding encode_all
scan-encode_all [] h = unfold scan in refl
scan-encode_all (c ∷ cs) h = scan-encode c (encode_all cs) h.0 ∙ scan-encode_all cs h.1

-- On a text of bytes, `valid_utf8` answers `true` exactly for the UTF-8 encodings of sequences of
-- scalar values: no overlong form, no surrogate, nothing above U+10FFFF, no cut sequence.
pub valid_utf8_iff : (s : Bytes) → All IsByte s → (valid_utf8 s ≡ true) ↔ IsEncoded s
unfolding valid_utf8
valid_utf8_iff s bs = (scan-IsEncoded 0 s bs, λ (cs, scalars, e). rw e (scan-encode_all cs scalars))

-- ASCII bytes in front change nothing.
pub valid_utf8-ascii : (p s : Bytes) → All (λ c. c < 0x80) p → valid_utf8 (p ++ s) ≡ valid_utf8 s
unfolding valid_utf8
valid_utf8-ascii [] s h = refl
valid_utf8-ascii (c ∷ p) s h = ground (arith, advance-encode_1 c (p ++ s), valid_utf8-ascii p s h.1)
