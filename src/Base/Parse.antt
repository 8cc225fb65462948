-- ===== src/Base/Parse.antt =====
-- Rust's `str::parse` for integers.
use Prim.Native.Nat.{ℕ, zero, suc, ◌+◌, ◌-◌, ◌*◌, ◌^◌}
use mathlib.Core.Bool.{◌&&◌}
use mathlib.Core.Option.{Option, none, some}
use mathlib.Core.List.{[], ◌∷◌}
use ion_win.Base.Tests.{leb, ltb, ◌==◌, if◌then◌else◌}
use ion_win.Base.Strings.{Text}
use ion_win.Base.Int.{ℤ, pos, negsuc}

-- `str::parse::<i64>`: a sign or none, digits, and a value that fits.
unfoldable pub digits : ℕ → Text → Option ℕ
digits value [] = some value
digits value (c ∷ s) =
    let rest = digits (value * 10 + (c - 48)) s in if leb 48 c && leb c 57 then rest else none

unfoldable pub magnitude : Text → Option ℕ
unfolding digits
magnitude [] = none
magnitude (c ∷ s) = digits 0 (c ∷ s)

abbrev pub positive : Option ℕ → Option ℤ
positive none = none
positive (some n) = if ltb n (2 ^ 63) then some (pos n) else none

abbrev pub negative : Option ℕ → Option ℤ
negative none = none
negative (some zero) = some (pos 0)
negative (some (suc n)) = if ltb n (2 ^ 63) then some (negsuc n) else none

unfoldable pub parse_i64 : Text → Option ℤ
unfolding magnitude
parse_i64 [] = none
parse_i64 (c ∷ s) =
    if c == 43
    then positive (magnitude s)
    else if c == 45
    then negative (magnitude s)
    else positive (magnitude (c ∷ s))

-- `str::parse::<u64>`, and `usize` on a 64-bit machine: a plus sign or none, and digits.
abbrev pub fits_u64 : Option ℕ → Option ℕ
fits_u64 none = none
fits_u64 (some n) = if ltb n (2 ^ 64) then some n else none

unfoldable pub parse_u64 : Text → Option ℕ
unfolding magnitude
parse_u64 [] = none
parse_u64 (c ∷ s) = if c == 43 then fits_u64 (magnitude s) else fits_u64 (magnitude (c ∷ s))
