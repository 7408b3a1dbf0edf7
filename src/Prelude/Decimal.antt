-- ===== src/Prelude/Decimal.antt =====
-- `std::to_string` of an unsigned number.
use Prim.Native.Nat.{ℕ, zero, suc, ◌+◌, ◌/◌, ◌%◌}
use mathlib.Core.List.{[], ◌∷◌, ◌++◌}
use bashpp.Prelude.Tests.{ltb, if◌then◌else◌}
use bashpp.Prelude.Texts.{Text}

-- The digits, the highest first; a fuel above the number is enough.
unfoldable pub digits : ℕ → ℕ → Text
digits zero n = []
digits (suc fuel) n =
    let rest = digits fuel (n / 10) ++ (48 + n % 10) ∷ [] in
    if ltb n 10 then (48 + n) ∷ [] else rest

unfoldable pub to_string : ℕ → Text
unfolding digits
to_string n = digits (suc n) n
