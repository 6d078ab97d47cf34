-- ===== src/Prelude/Maps.antt =====
-- `std::unordered_map<std::string, V>` as an association list. The order of the list is one order
-- in which the table may be walked; keys are kept apart by `UniqueKeys`.
use mathlib.Core.Path.{◌≡◌, refl}
use mathlib.Core.Bool.{Bool, true, false}
use mathlib.Core.List.{List, [], ◌∷◌}
use mathlib.Core.Option.{Option, none, some}
use native.Mathlib.Omega.{arith}
use nettverk.Prelude.Tests.{if◌then◌else◌}
use nettverk.Prelude.Text.{Bytes, bytes_eq, bytes_eq_iff}

abbrev pub Dict {ℓ} : Type ℓ → Type ℓ
Dict V = List (Bytes × V)

module _ {ℓ} {V : Type ℓ} where
  unfoldable pub find : Bytes → Dict V → Option V
  find k [] = none
  find k ((j, v) ∷ m) = if bytes_eq j k then some v else find k m

  unfoldable pub contains : Bytes → Dict V → Bool
  unfolding find
  contains k m = elim (find k m) [ none ↦ false | some v ↦ true ]

  -- `m[k] = v`
  unfoldable pub insert : Bytes → V → Dict V → Dict V
  insert k v [] = (k, v) ∷ []
  insert k v ((j, w) ∷ m) = if bytes_eq j k then (j, v) ∷ m else (j, w) ∷ insert k v m

  -- `m.erase(k)`
  unfoldable pub erase : Bytes → Dict V → Dict V
  erase k [] = []
  erase k ((j, w) ∷ m) = if bytes_eq j k then m else (j, w) ∷ erase k m

  -- The loop `for (it = m.begin(); …) if (!keeps(it->second)) it = m.erase(it); else ++it;`
  unfoldable pub retain : (V → Bool) → Dict V → Dict V
  retain keeps [] = []
  retain keeps ((j, w) ∷ m) = if keeps w then (j, w) ∷ retain keeps m else retain keeps m

  -- No key stands twice.
  abbrev pub UniqueKeys : Dict V → Type ℓ
  UniqueKeys [] = Unit
  UniqueKeys ((j, v) ∷ m) = (find j m ≡ none) × UniqueKeys m

  pub find-insert :
      (k j : Bytes) (v : V) (m : Dict V)
      → find j (insert k v m) ≡ (if bytes_eq k j then some v else find j m)
  unfolding find insert
  find-insert k j v [] = refl
  find-insert k j v ((i, w) ∷ m) =
      ground (arith, bytes_eq_iff k j, bytes_eq_iff i k, bytes_eq_iff i j, find-insert k j v m)

  pub find-erase :
      (k j : Bytes) (m : Dict V)
      → UniqueKeys m
      → find j (erase k m) ≡ (if bytes_eq k j then none else find j m)
  unfolding find erase
  find-erase k j [] u = ground arith
  find-erase k j ((i, w) ∷ m) u =
      ground (arith, bytes_eq_iff k j, bytes_eq_iff i k, bytes_eq_iff i j, find-erase k j m u.1)

  abbrev pub kept : (V → Bool) → Option V → Option V
  kept keeps none = none
  kept keeps (some v) = if keeps v then some v else none

  find-retain_absent :
      (keeps : V → Bool) (j : Bytes) (m : Dict V) → find j m ≡ none → find j (retain keeps m) ≡ none
  unfolding find retain
  find-retain_absent keeps j [] h = refl
  find-retain_absent keeps j ((i, w) ∷ m) h = ground (arith, find-retain_absent keeps j m)

  pub find-retain :
      (keeps : V → Bool) (j : Bytes) (m : Dict V)
      → UniqueKeys m
      → find j (retain keeps m) ≡ kept keeps (find j m)
  unfolding find retain
  find-retain keeps j [] u = refl
  find-retain keeps j ((i, w) ∷ m) u =
      ground (arith, bytes_eq_iff i j, find-retain keeps j m u.1, find-retain_absent keeps i m u.0)

  find-insert_absent :
      (k j : Bytes) (v : V) (m : Dict V)
      → find j m ≡ none
      → bytes_eq k j ≡ false
      → find j (insert k v m) ≡ none
  find-insert_absent k j v m h ne = rw (find-insert k j v m, ne) h

  pub insert-UniqueKeys :
      (k : Bytes) (v : V) (m : Dict V) → UniqueKeys m → UniqueKeys (insert k v m)
  unfolding insert
  insert-UniqueKeys k v [] u = (unfold find in refl, tt)
  insert-UniqueKeys k v ((i, w) ∷ m) u = ground (
    arith,
    bytes_eq_iff i k,
    bytes_eq_iff k i,
    find-insert_absent k i v m u.0,
    insert-UniqueKeys k v m u.1,
  )

  find-erase_absent : (k j : Bytes) (m : Dict V) → find j m ≡ none → find j (erase k m) ≡ none
  unfolding find erase
  find-erase_absent k j [] h = refl
  find-erase_absent k j ((i, w) ∷ m) h = ground (arith, find-erase_absent k j m)

  pub erase-UniqueKeys : (k : Bytes) (m : Dict V) → UniqueKeys m → UniqueKeys (erase k m)
  unfolding erase
  erase-UniqueKeys k [] u = tt
  erase-UniqueKeys k ((i, w) ∷ m) u =
      ground (arith, find-erase_absent k i m u.0, erase-UniqueKeys k m u.1)

  pub retain-UniqueKeys :
      (keeps : V → Bool) (m : Dict V) → UniqueKeys m → UniqueKeys (retain keeps m)
  unfolding retain
  retain-UniqueKeys keeps [] u = tt
  retain-UniqueKeys keeps ((i, w) ∷ m) u =
      ground (arith, find-retain_absent keeps i m u.0, retain-UniqueKeys keeps m u.1)
