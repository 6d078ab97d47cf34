-- ===== src/Prelude/Decimal.antt =====
-- `std::to_string` of an unsigned number.
use Prim.Native.Nat.{ℕ, zero, suc, ◌+◌, ◌/◌, ◌%◌}
use mathlib.Core.List.{[], ◌∷◌, ◌++◌}
use nettverk.Prelude.Tests.{ltb, if◌then◌else◌}
use nettverk.Prelude.Text.{Bytes}

-- The digits of a number, with at least as many rounds as it has digits.
unfoldable pub digits_within : ℕ → ℕ → Bytes
digits_within zero n = []
digits_within (suc rounds) n =
    let rest = digits_within rounds (n / 10) in
    if ltb n 10 then (0x30 + n) ∷ [] else rest ++ (0x30 + n % 10) ∷ []

unfoldable pub to_string : ℕ → Bytes
unfolding digits_within
to_string n = digits_within (suc n) n
