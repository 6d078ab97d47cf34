-- ===== src/Logger/Levels.antt =====
-- Which calls of the logger are written, and in which form.
use nettverk.Prelude.{[], ◌≡◌, refl, some, ◌∷◌, ◌++◌, Bytes, arith}
use nettverk.Logger.{Logger}
use nettverk.Logger.Reading.{after}

after-append : (p s : Bytes) → after p (p ++ s) ≡ some s
unfolding after
after-append [] s = refl
after-append (c ∷ p) s = ground (arith, after-append p s)
