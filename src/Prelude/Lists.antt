-- ===== src/Prelude/Lists.antt =====
-- Lists measured and indexed by native numbers, under the library's names, and the loop that takes
-- elements off an end while a test holds.
use Prim.Native.Nat.{ℕ, zero, suc, ◌+◌, ◌≤◌}
use mathlib.Core.Path.{◌≡◌, ap, sym, subst, ◌∙◌}
use mathlib.Core.Bool.{Bool, true, false}
use mathlib.Core.Logic.{◌⊎◌, inl, inr}
use mathlib.Core.List.{
  append_assoc, List, [], ◌∷◌, ◌++◌, reverse, reverse-cons, reverse-append, reverse-reverse,
}
use mathlib.Core.Option.{Option, none, some}
use native.Mathlib.Omega.{arith}
use nettverk.Prelude.Tests.{Bool-cases, if◌then◌else◌}

module _ {ℓ} {A : Type ℓ} where
  abbrev pub length : List A → ℕ
  length [] = 0
  length (x ∷ xs) = suc (length xs)

  abbrev pub is_empty : List A → Bool
  is_empty [] = true
  is_empty (x ∷ xs) = false

  abbrev pub get_elem? : List A → ℕ → Option A
  get_elem? [] i = none
  get_elem? (x ∷ xs) zero = some x
  get_elem? (x ∷ xs) (suc i) = get_elem? xs i

  abbrev pub take : ℕ → List A → List A
  take zero xs = []
  take (suc n) [] = []
  take (suc n) (x ∷ xs) = x ∷ take n xs

  abbrev pub drop : ℕ → List A → List A
  drop zero xs = xs
  drop (suc n) [] = []
  drop (suc n) (x ∷ xs) = drop n xs

  pub length-append : (xs ys : List A) → length (xs ++ ys) ≡ length xs + length ys
  length-append [] ys = omega arith
  length-append (x ∷ xs) ys = omega (arith, length-append xs ys)

  pub length-take-le : (n : ℕ) (xs : List A) → length (take n xs) ≤ n
  length-take-le zero xs = omega arith
  length-take-le (suc n) [] = omega arith
  length-take-le (suc n) (x ∷ xs) = omega (arith, length-take-le n xs)

-- A predicate by recursion computes to tuples, which the tactics read and build.
abbrev pub All {ℓ κ} : {A : Type ℓ} → (A → Type κ) → List A → Type κ
All P [] = Unit
All P (x ∷ xs) = P x × All P xs

pub All-append {ℓ κ} :
    {A : Type ℓ} (P : A → Type κ) (xs ys : List A) → All P xs → All P ys → All P (xs ++ ys)
All-append P [] ys hx hy = hy
All-append P (x ∷ xs) ys hx hy = (hx.0, All-append P xs ys hx.1 hy)

pub All-append_left {ℓ κ} :
    {A : Type ℓ} (P : A → Type κ) (xs ys : List A) → All P (xs ++ ys) → All P xs
All-append_left P [] ys h = tt
All-append_left P (x ∷ xs) ys h = (h.0, All-append_left P xs ys h.1)

pub All-append_right {ℓ κ} :
    {A : Type ℓ} (P : A → Type κ) (xs ys : List A) → All P (xs ++ ys) → All P ys
All-append_right P [] ys h = h
All-append_right P (x ∷ xs) ys h = All-append_right P xs ys h.1

-- The element stands in the list.
abbrev pub In : {A : Type 0} → A → List A → Type 0
In x [] = ⊥
In x (y ∷ ys) = (x ≡ y) ⊎ In x ys

pub All-In {κ} : {A : Type 0} (P : A → Type κ) (x : A) (xs : List A) → All P xs → In x xs → P x
All-In P x [] h i = elim i [ ]
All-In P x (y ∷ ys) h (inl e) = subst P (sym e) h.0
All-In P x (y ∷ ys) h (inr i) = All-In P x ys h.1 i

pub In-append_left : {A : Type 0} (x : A) (xs ys : List A) → In x xs → In x (xs ++ ys)
In-append_left x [] ys i = elim i [ ]
In-append_left x (z ∷ xs) ys (inl e) = inl e
In-append_left x (z ∷ xs) ys (inr i) = inr (In-append_left x xs ys i)

pub All-map {ℓ κ κ'} :
    {A : Type ℓ} (P : A → Type κ) (R : A → Type κ') (xs : List A)
    → ((x : A) → P x → R x)
    → All P xs
    → All R xs
All-map P R [] f h = tt
All-map P R (x ∷ xs) f h = (f x h.0, All-map P R xs f h.1)

module _ {ℓ} {A : Type ℓ} (p : A → Bool) where
  -- `while (!s.empty() && p(s.front())) s.erase(s.begin())`
  abbrev pub strip_front : List A → List A
  strip_front [] = []
  strip_front (x ∷ xs) = if p x then strip_front xs else x ∷ xs

  -- `while (!s.empty() && p(s.back())) s.pop_back()`: the same loop, seen from the other end.
  unfoldable pub strip_back : List A → List A
  strip_back xs = reverse (strip_front (reverse xs))

  pub strip_back-append_one :
      (xs : List A) (x : A)
      → strip_back (xs ++ x ∷ []) ≡ (if p x then strip_back xs else xs ++ x ∷ [])
  unfolding strip_back
  strip_back-append_one xs x = rw (reverse-append xs (x ∷ [])) (elim (Bool-cases (p x)) [
    | inl h ↦ rw h
    | inr h ↦ rw h (reverse-cons x (reverse xs) ∙ ap (λ l. l ++ x ∷ []) (reverse-reverse xs))
  ])

  -- A list whose last elements fail the test is left whole.
  pub strip_back_stays :
      (pre : List A) (x : A) (xs : List A)
      → All (λ y. p y ≡ false) (x ∷ xs)
      → strip_back (pre ++ x ∷ xs) ≡ pre ++ x ∷ xs
  strip_back_stays pre x [] h = rw (strip_back-append_one pre x, h.0)
  strip_back_stays pre x (y ∷ ys) h =
      rw (← append_assoc pre (x ∷ []) (y ∷ ys)) (strip_back_stays (pre ++ x ∷ []) y ys h.1)
