-- ===== src/Arith/Numbers.antt =====
-- The numbers of src/arith.rs, their operators and the operations on them, and the white space and
-- the operators at the head of a text.
use ion_win.Base.{
  ℕ, Bool, Option, none, some, List, [], ◌∷◌, ◌++◌, Text, if◌then◌else◌, ◌==◌, codes, drop, length,
}
use ion_win.Base.Chars.{is_whitespace}
use ion_win.Builtins.{starts_with}
use ion_win.Arith.Words.{
  wrapping_add, wrapping_sub, wrapping_mul, wrapping_neg, bit_not, and_bits, or_bits, xor_bits,
  shift_left, shift_right, remainder, overflows,
}

-- The operations on `f64` that are used, and what `char::is_alphabetic` and `is_numeric` say.
pub record Floats : Type 1 where
  pub F64 : Type 0
  pub of_i64 : ℕ → F64
  pub parse : Text → Option F64
  pub add : F64 → F64 → F64
  pub sub : F64 → F64 → F64
  pub mul : F64 → F64 → F64
  pub div : F64 → F64 → F64
  pub rem : F64 → F64 → F64
  pub powf : F64 → F64 → F64
  pub neg : F64 → F64
  pub is_alphabetic : ℕ → Bool
  pub is_numeric : ℕ → Bool

-- `Result`, a panic, and an evaluator that has run out of fuel.
pub data Reply {ℓ} (A : Type ℓ) : Type ℓ where
  value : A → Reply A
  failed : Text → Reply A
  panicked starved : Reply A

infixl 5 ◌>>=◌
abbrev pub ◌>>=◌ {ℓ κ} : {A : Type ℓ} {B : Type κ} → Reply A → (A → Reply B) → Reply B
value a >>= f = f a
failed message >>= f = failed message
panicked >>= f = panicked
starved >>= f = starved

-- The levels of the binary operators that associate to the left, from low to high.
pub data Level : Type 0 where
  or xor and shift additive multiplicative : Level

pub data Operator : Type 0 where
  bit_or bit_xor bit_and shl shr plus minus times divided modulo : Operator

unfoldable pub operators : Level → List (Text × Operator)
operators or = (codes "|", bit_or) ∷ []
operators xor = (codes "^", bit_xor) ∷ []
operators and = (codes "&", bit_and) ∷ []
operators shift = (codes "<<", shl) ∷ (codes ">>", shr) ∷ []
operators additive = (codes "+", plus) ∷ (codes "-", minus) ∷ []
operators multiplicative = (codes "*", times) ∷ (codes "/", divided) ∷ (codes "%", modulo) ∷ []

-- `peek_is` and `consume`, for the first of the operators that stands at the place.
unfoldable pub find_operator : List (Text × Operator) → Text → Option (Operator × Text)
unfolding starts_with
find_operator [] s = none
find_operator ((symbol, op) ∷ rest) s =
    if starts_with s symbol then some (op, drop (length symbol) s) else find_operator rest s

unfoldable pub skip_ws : Text → Text
unfolding is_whitespace
skip_ws [] = []
skip_ws (c ∷ s) = let rest = skip_ws s in if is_whitespace c then rest else c ∷ s

module _ (floats : Floats) where
  pub data Num : Type 0 where
    int : ℕ → Num
    float : floats.F64 → Num

  unfoldable pub as_f64 : Num → floats.F64
  as_f64 (int v) = floats.of_i64 v
  as_f64 (float v) = v

  unfoldable pub int_op : Num → Num → Text → (ℕ → ℕ → ℕ) → Reply Num
  int_op (int a) (int b) op_name f = value (int (f a b))
  int_op _ _ op_name f =
      failed (codes "operator '" ++ (op_name ++ codes "' requires integer operands"))

  unfoldable pub numeric_op : Num → Num → (ℕ → ℕ → ℕ) → (floats.F64 → floats.F64 → floats.F64) → Num
  unfolding as_f64
  numeric_op (int a) (int b) fi ff = int (fi a b)
  numeric_op lhs rhs fi ff = float (ff (as_f64 lhs) (as_f64 rhs))

  -- The remainder panics if the quotient overflows.
  unfoldable pub modulus : Num → Num → Reply Num
  unfolding as_f64
  modulus (int a) (int b) =
      if b == 0
      then failed (codes "modulus by zero")
      else if overflows a b
      then panicked
      else value (int (remainder a b))
  modulus lhs rhs = value (float (floats.rem (as_f64 lhs) (as_f64 rhs)))

  unfoldable pub apply : Operator → Num → Num → Reply Num
  unfolding int_op numeric_op modulus as_f64
  apply bit_or a b = int_op a b (codes "|") or_bits
  apply bit_xor a b = int_op a b (codes "^") xor_bits
  apply bit_and a b = int_op a b (codes "&") and_bits
  apply shl a b = int_op a b (codes "<<") shift_left
  apply shr a b = int_op a b (codes ">>") shift_right
  apply plus a b = value (numeric_op a b wrapping_add floats.add)
  apply minus a b = value (numeric_op a b wrapping_sub floats.sub)
  apply times a b = value (numeric_op a b wrapping_mul floats.mul)
  apply divided a b = value (float (floats.div (as_f64 a) (as_f64 b)))
  apply modulo a b = modulus a b

  unfoldable pub negate : Num → Num
  negate (int v) = int (wrapping_neg v)
  negate (float v) = float (floats.neg v)

  unfoldable pub complement : Num → Reply Num
  complement (int v) = value (int (bit_not v))
  complement (float v) = failed (codes "bitwise NOT ('~') requires an integer operand")
