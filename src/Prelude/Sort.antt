-- ===== src/Prelude/Sort.antt =====
-- `std::sort` by a text key, as an insertion sort: any sorting gives the same list where the keys
-- are distinct.
use mathlib.Core.Bool.{Bool, true, false, ◌&&◌, ◌||◌}
use mathlib.Core.List.{List, [], ◌∷◌}
use nettverk.Prelude.Tests.{ltb, ◌==◌, if◌then◌else◌}
use nettverk.Prelude.Text.{Bytes}

-- `a < b` on strings: byte by byte, a prefix before its extensions.
unfoldable pub bytes_lt : Bytes → Bytes → Bool
bytes_lt xs [] = false
bytes_lt [] (y ∷ ys) = true
bytes_lt (x ∷ xs) (y ∷ ys) = ltb x y || ((x == y) && bytes_lt xs ys)

module _ {ℓ} {A : Type ℓ} (key : A → Bytes) where
  unfoldable pub insert_by : A → List A → List A
  insert_by a [] = a ∷ []
  insert_by a (b ∷ l) = if bytes_lt (key b) (key a) then b ∷ insert_by a l else a ∷ b ∷ l

  unfoldable pub sort_by : List A → List A
  unfolding insert_by bytes_lt
  sort_by [] = []
  sort_by (a ∷ l) = insert_by a (sort_by l)
