-- ===== src/Examples/Sums.antt =====
-- Expressions of src/arith.rs at work.
use Prim.Native.Nat.{ℕ}
use ion_win.Base.{
  [], ◌≡◌, refl, ◌-◌, ◌+◌, ◌*◌, ◌^◌, ◌&&◌, Option, none, some, Text, codes, leb, text_eq, arith,
  if◌then◌else◌,
}
use ion_win.Arith.Numbers.{times, plus, Floats, value, failed, panicked, int, float}
use ion_win.Arith.{eval}
use ion_win.Arith.Values.{Holds, InRange}
use ion_win.Arith.Ends.{eval-InRange}
use ion_win.Arith.Spec.{Expr, number, negated, calc, print, Fits, meaning}
use ion_win.Arith.Refines.{eval-print}

-- Floats without a fraction, as the letters are the small ones of ASCII.
abbrev whole : Floats
whole = record {
  F64 = ℕ;
  of_i64 = λ n. n;
  parse = λ s. none;
  add = λ a b. a + b;
  sub = λ a b. a - b;
  mul = λ a b. a * b;
  div = λ a b. a;
  rem = λ a b. a;
  powf = λ a b. a ^ b;
  neg = λ a. a;
  is_alphabetic = λ c. leb 97 c && leb c 122;
  is_numeric = λ c. leb 48 c && leb c 57;
}

abbrev lookup : Text → Option Text
lookup name = if text_eq name (codes "n") then some (codes "-3") else none

eval-InRange_example : Holds (InRange whole) (eval whole lookup (codes "2 + n * (4 - 1)"))
eval-InRange_example = eval-InRange whole lookup (codes "2 + n * (4 - 1)")

-- 2 - 9 in 64 bits.
eval-sum : eval whole lookup (codes "2 + n * (4 - 1)") ≡ value (int (2 ^ 64 - 7))
unfolding eval text_eq
eval-sum = refl

eval-power : eval whole lookup (codes "2 ** 3 ** 2") ≡ value (float 512)
unfolding eval
eval-power = refl

-- The smallest integer has no remainder by minus one.
eval-overflow : eval whole lookup (codes "(0 - 9223372036854775807 - 1) % (0 - 1)") ≡ panicked
unfolding eval
eval-overflow = refl

eval-trailing :
    eval whole lookup (codes "1 2") ≡ failed (codes "unexpected trailing input in expression '1 2'")
unfolding eval
eval-trailing = refl

-- `(-2*(3+4))`
abbrev product : Expr
product = calc times (negated (number 2)) (calc plus (number 3) (number 4))

eval-print_example : eval whole lookup (print product []) ≡ meaning whole product
unfolding Fits
eval-print_example = eval-print whole lookup product (omega arith, (omega arith, omega arith))

print-product : print product [] ≡ codes "(-2*(3+4))"
unfolding print
print-product = refl
