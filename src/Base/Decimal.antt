-- ===== src/Base/Decimal.antt =====
-- Decimal text of a number: what `to_string` and `format!` print for an unsigned integer.
pub mod Reads
use Prim.Native.Nat.{ℕ, zero, suc, ◌+◌, ◌/◌, ◌%◌}
use mathlib.Core.List.{[], ◌∷◌}
use ion_win.Base.Tests.{ltb, if◌then◌else◌}
use ion_win.Base.Strings.{Text}

-- The digits in front of `tail`, one unit of fuel for each; a number has no more digits than its value plus one.
digits_fuel : ℕ → ℕ → Text → Text
digits_fuel zero n tail = tail
digits_fuel (suc f) n tail =
    let here = (48 + n % 10) ∷ tail in
    let rest = digits_fuel f (n / 10) here in if ltb n 10 then here else rest

unfoldable pub to_string : ℕ → Text
unfolding digits_fuel
to_string n = digits_fuel (suc n) n []
