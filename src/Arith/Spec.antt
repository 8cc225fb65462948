-- ===== src/Arith/Spec.antt =====
-- What an expression of src/arith.rs means, by its structure, and how it is written with
-- parentheses.
use ion_win.Base.{ℕ, ◌^◌, ◌<◌, ◌∷◌, ◌++◌, Text, codes}
use ion_win.Base.Decimal.{to_string}
use ion_win.Arith.Numbers.{
  Floats, Reply, value, ◌>>=◌, Operator, bit_or, bit_xor, bit_and, shl, shr, plus, minus, times,
  divided, modulo, Num, int, apply, negate,
}

pub data Expr : Type 0 where
  number : ℕ → Expr
  negated : Expr → Expr
  calc : Operator → Expr → Expr → Expr

unfoldable pub symbol : Operator → Text
symbol bit_or = codes "|"
symbol bit_xor = codes "^"
symbol bit_and = codes "&"
symbol shl = codes "<<"
symbol shr = codes ">>"
symbol plus = codes "+"
symbol minus = codes "-"
symbol times = codes "*"
symbol divided = codes "/"
symbol modulo = codes "%"

-- The text of an expression, in front of `rest`.
unfoldable pub print : Expr → Text → Text
unfolding symbol to_string
print (number n) rest = to_string n ++ rest
print (negated e) rest = 45 ∷ print e rest
print (calc op a b) rest = 40 ∷ print a (symbol op ++ print b (41 ∷ rest))

-- Every number can be written as an `i64`.
unfoldable pub Fits : Expr → Type 0
Fits (number n) = n < 2 ^ 63
Fits (negated e) = Fits e
Fits (calc op a b) = Fits a × Fits b

-- The left operand comes first: its error or panic is that of the expression.
unfoldable pub meaning : (floats : Floats) → Expr → Reply (Num floats)
unfolding apply negate
meaning floats (number n) = value (int n)
meaning floats (negated e) = meaning floats e >>= λ v. value (negate floats v)
meaning floats (calc op a b) =
    meaning floats a >>= λ x. meaning floats b >>= λ y. apply floats op x y
