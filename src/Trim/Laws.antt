-- ===== src/Trim/Laws.antt =====
-- What `trim_in_place` of string_trim.hpp leaves of a text.
use nettverk.Prelude.{
  ℕ, ◌≡◌, refl, sym, subst, ◌∙◌, ap, Bool, true, false, [], ◌∷◌, ◌++◌, Bytes, All, All-append,
  strip_front, strip_back, arith, append_assoc, Bool-cases, inl, inr,
}
use mathlib.Core.List.{reverse, reverse-cons, reverse-append, reverse-reverse}
use nettverk.Trim.{is_back_blank, is_front_blank, trim_in_place}

module _ (p : ℕ → Bool) where
  -- The front loop drops a blank beginning, and stops at an end or at a byte that is no blank.
  strip_front-Splits :
      (s : Bytes) → (pre : Bytes) × (s ≡ pre ++ strip_front p s) × All (λ c. p c ≡ true) pre
  strip_front-Splits [] = ([], refl, tt)
  strip_front-Splits (c ∷ s) = elim (Bool-cases (p c)) [
    | inl e ↦
        let (pre, split, blank) = strip_front-Splits s in
        (c ∷ pre, rw e (ap (◌∷◌ c) split), (e, blank))
    | inr e ↦ ([], rw e, tt)
  ]

  All-reverse : (s : Bytes) → All (λ c. p c ≡ true) s → All (λ c. p c ≡ true) (reverse s)
  All-reverse [] h = tt
  All-reverse (c ∷ s) h =
      rw (reverse-cons c s)
        (All-append (λ c. p c ≡ true) (reverse s) (c ∷ []) (All-reverse s h.1) (h.0, tt))

  strip_back-Splits :
      (s : Bytes) → (post : Bytes) × (s ≡ strip_back p s ++ post) × All (λ c. p c ≡ true) post
  unfolding strip_back
  strip_back-Splits s =
      let (pre, split, blank) = strip_front-Splits (reverse s) in
      (
        reverse pre,
        sym (reverse-reverse s) ∙ ap reverse split ∙ reverse-append pre (strip_front p (reverse s)),
        All-reverse pre blank,
      )

-- The last and the first byte, where there is one, fail the test.
abbrev pub EndsClean : (ℕ → Bool) → Bytes → Type 0
EndsClean p s = (r : Bytes) (c : ℕ) → s ≡ r ++ c ∷ [] → p c ≡ false

abbrev pub BeginsClean : (ℕ → Bool) → Bytes → Type 0
BeginsClean p s = (c : ℕ) (r : Bytes) → s ≡ c ∷ r → p c ≡ false

strip_front-BeginsClean : (p : ℕ → Bool) (s : Bytes) → BeginsClean p (strip_front p s)
strip_front-BeginsClean p [] c r h = absurd (cc)
strip_front-BeginsClean p (x ∷ s) c r h = ground (arith, strip_front-BeginsClean p s c r)

strip_back-EndsClean : (p : ℕ → Bool) (s : Bytes) → EndsClean p (strip_back p s)
unfolding strip_back
strip_back-EndsClean p s r c h =
    strip_front-BeginsClean p (reverse s) c (reverse r)
      (sym (reverse-reverse _) ∙ ap reverse h ∙ reverse-append r (c ∷ []))

EndsClean-suffix : (p : ℕ → Bool) (pre s : Bytes) → EndsClean p (pre ++ s) → EndsClean p s
EndsClean-suffix p pre s h r c e =
    h (pre ++ r) c (ap (λ t. pre ++ t) e ∙ sym (append_assoc pre r (c ∷ [])))

-- Trimming cuts a text into a beginning of spaces and tabs, the result, and an end of spaces, tabs
-- and carriage returns, and the result neither begins nor ends with such a byte.
pub trim_in_place_lem :
    (s : Bytes)
    → ((pre : Bytes) × (post : Bytes) × (s ≡ pre ++ (trim_in_place s ++ post))
        × All (λ c. is_front_blank c ≡ true) pre
        × All (λ c. is_back_blank c ≡ true) post)
      × BeginsClean is_front_blank (trim_in_place s)
      × EndsClean is_back_blank (trim_in_place s)
unfolding trim_in_place
trim_in_place_lem s =
    let (post, back, blank) = strip_back-Splits is_back_blank s in
    let (pre, front, blank') = strip_front-Splits is_front_blank (strip_back is_back_blank s) in
    (
      (pre, post, back ∙ ap (λ t. t ++ post) front ∙ append_assoc pre _ post, blank', blank),
      strip_front-BeginsClean is_front_blank (strip_back is_back_blank s),
      EndsClean-suffix is_back_blank pre _
          (subst (EndsClean is_back_blank) front (strip_back-EndsClean is_back_blank s)),
    )

strip_front_clean : (p : ℕ → Bool) (s : Bytes) → BeginsClean p s → strip_front p s ≡ s
strip_front_clean p [] h = refl
strip_front_clean p (x ∷ s) h = rw (h x s refl)

strip_back_clean : (p : ℕ → Bool) (s : Bytes) → EndsClean p s → strip_back p s ≡ s
unfolding strip_back
strip_back_clean p s h =
    ap reverse (
      strip_front_clean p (reverse s)
        (λ c r e. h (reverse r) c (sym (reverse-reverse s) ∙ ap reverse e ∙ reverse-cons c r)))
    ∙ reverse-reverse s

-- A text with clean ends is left whole.
pub trim_clean :
    (s : Bytes) → BeginsClean is_front_blank s → EndsClean is_back_blank s → trim_in_place s ≡ s
unfolding trim_in_place
trim_clean s b e = rw (strip_back_clean is_back_blank s e) (strip_front_clean is_front_blank s b)

-- Trimming twice is trimming once.
pub trim_idem : (s : Bytes) → trim_in_place (trim_in_place s) ≡ trim_in_place s
trim_idem s =
    let (_, begins, ends) = trim_in_place_lem s in trim_clean (trim_in_place s) begins ends
