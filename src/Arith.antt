-- ===== src/Arith.antt =====
-- The arithmetic expansion of src/arith.rs: an evaluator that parses by recursive descent. An
-- `i64` is the number of its 64 bits; floats and the variables of the shell are parameters. The
-- build is the release build, in which additions, shifts and negations wrap.
pub mod Words
pub mod Numbers
pub mod Values
pub mod Fuel
pub mod Ends
pub mod Spec
pub mod Agrees
pub mod Written
pub mod Refines
use ion_win.Base.{
  ℕ, zero, suc, ◌+◌, ◌-◌, ◌*◌, ◌/◌, ◌%◌, ◌^◌, Bool, true, false, not, ◌&&◌, ◌||◌, Option, none,
  some, List, [], ◌∷◌, ◌++◌, Text, if◌then◌else◌, ◌==◌, ltb, codes, drop, length,
}
use ion_win.Base.Chars.{is_whitespace, is_digit, trim_start}
use ion_win.Base.Int.{ℤ, pos, negsuc}
use ion_win.Base.Parse.{parse_i64}
use ion_win.Builtins.{starts_with}
use ion_win.Arith.Words.{
  wrapping_add, wrapping_sub, wrapping_mul, wrapping_neg, bit_not, and_bits, or_bits, xor_bits,
  shift_left, shift_right, remainder, overflows, word_of,
}
use ion_win.Arith.Numbers.{
  Floats, Level, Num, Operator, Reply, additive, and, apply, as_f64, bit_and, bit_or, bit_xor,
  complement, divided, failed, find_operator, float, int, int_op, minus, modulo, modulus,
  multiplicative, negate, numeric_op, operators, or, panicked, plus, shift, shl, shr, skip_ws,
  starved, times, value, xor, ◌>>=◌,
}

module _ (floats : Floats) where
  -- The functions of the parser: `parse_or` to `parse_multiplicative` by their level, the loops of
  -- these and of `parse_postfix` with the value they have so far, and the others by their names.
  pub data Rule : Type 0 where
    binary : Level → Rule
    more : Level → Num floats → Rule
    power unary postfix primary : Rule
    squares : Num floats → Rule

  -- What the operands of a level are.
  abbrev pub operand : Level → Rule
  operand or = binary xor
  operand xor = binary and
  operand and = binary shift
  operand shift = binary additive
  operand additive = binary multiplicative
  operand multiplicative = power

  -- The digits of a number and at most one point, the rest, and whether there was a point.
  unfoldable pub number_text : Bool → Text → (Text × Text) × Bool
  number_text is_float [] = (([], []), is_float)
  number_text is_float (c ∷ s) =
      if is_digit c
      then (let r = number_text is_float s in ((c ∷ (r.0).0, (r.0).1), r.1))
      else if c == 46 && not is_float
      then (let r = number_text true s in ((c ∷ (r.0).0, (r.0).1), r.1))
      else (([], c ∷ s), is_float)

  -- `is_alphanumeric` is to be alphabetic or numeric.
  unfoldable pub name_text : Text → Text × Text
  name_text [] = ([], [])
  name_text (c ∷ s) =
      let (name, rest) = name_text s in
      if (floats.is_alphabetic c || floats.is_numeric c) || c == 95
      then (c ∷ name, rest)
      else ([], c ∷ s)

  abbrev pub invalid_number : Text → Text
  invalid_number buf = codes "invalid number '" ++ (buf ++ codes "'")

  abbrev pub int_of : Option ℤ → Text → Reply (Num floats)
  int_of none buf = failed (invalid_number buf)
  int_of (some n) buf = value (int (word_of n))

  abbrev pub float_of : Option floats.F64 → Text → Reply (Num floats)
  float_of none message = failed message
  float_of (some f) message = value (float f)

  unfoldable pub parse_number : Text → Reply (Num floats × Text)
  unfolding number_text parse_i64
  parse_number s =
      let ((buf, rest), is_float) = number_text false s in
      (if is_float
        then float_of (floats.parse buf) (invalid_number buf)
        else int_of (parse_i64 buf) buf)
      >>= λ n. value (n, rest)

  abbrev pub not_a_number : Text → Text → Text
  not_a_number name held =
      codes "variable '"
      ++ (name ++ (codes "' does not hold a number (got '" ++ (held ++ codes "')")))

  abbrev pub held_number : Option ℤ → Text → Text → Reply (Num floats)
  held_number (some n) name held = value (int (word_of n))
  held_number none name held = float_of (floats.parse held) (not_a_number name held)

  unfoldable pub variable_value : Text → Option Text → Reply (Num floats)
  unfolding parse_i64
  variable_value name none = failed (name ++ codes ": variable does not exist")
  variable_value name (some held) = held_number (parse_i64 held) name held

  module _ (lookup : Text → Option Text) where
    unfoldable pub parse_identifier : Text → Reply (Num floats × Text)
    unfolding name_text variable_value
    parse_identifier s =
        let (name, rest) = name_text s in variable_value name (lookup name) >>= λ n. value (n, rest)

    abbrev pub Parser : Type 0
    Parser = Rule → Text → Reply (Num floats × Text)

    -- The closing parenthesis, behind white space.
    unfoldable pub close : Num floats → Text → Reply (Num floats × Text)
    close v (c ∷ s) = if c == 41 then value (v, s) else failed (codes "expected closing ')'")
    close v [] = failed (codes "expected closing ')'")

    unfoldable pub parse_primary : Parser → Text → Reply (Num floats × Text)
    unfolding close skip_ws parse_number parse_identifier
    parse_primary rec [] = failed (codes "expected a number, variable, or '('")
    parse_primary rec (c ∷ s) =
        if c == 40
        then rec (binary or) s >>= (λ r. close r.0 (skip_ws r.1))
        else if is_digit c || c == 46
        then parse_number (c ∷ s)
        else if floats.is_alphabetic c || c == 95
        then parse_identifier (c ∷ s)
        else failed (codes "expected a number, variable, or '('")

    unfoldable pub parse_unary : Parser → Text → Reply (Num floats × Text)
    unfolding negate complement
    parse_unary rec [] = rec postfix []
    parse_unary rec (c ∷ s) =
        if c == 45
        then rec unary s >>= (λ r. value (negate floats r.0, r.1))
        else if c == 43
        then rec unary s
        else if c == 126
        then rec unary s >>= (λ r. complement floats r.0 >>= λ n. value (n, r.1))
        else rec postfix (c ∷ s)

    -- `²` and `³`
    unfoldable pub parse_squares : Parser → Num floats → Text → Reply (Num floats × Text)
    unfolding as_f64
    parse_squares rec v [] = value (v, [])
    parse_squares rec v (c ∷ s) =
        if c == 178
        then rec (squares (float (floats.powf (as_f64 floats v) (floats.of_i64 2)))) s
        else if c == 179
        then rec (squares (float (floats.powf (as_f64 floats v) (floats.of_i64 3)))) s
        else value (v, c ∷ s)

    unfoldable pub parse_exponent : Parser → Num floats → Text → Reply (Num floats × Text)
    unfolding starts_with as_f64
    parse_exponent rec base s =
        if starts_with s (codes "**")
        then rec power (drop 2 s)
          >>= (λ r. value (float (floats.powf (as_f64 floats base) (as_f64 floats r.0)), r.1))
        else value (base, s)

    unfoldable pub parse_more :
        Parser → Level → Num floats → Text → Option (Operator × Text) → Reply (Num floats × Text)
    unfolding apply
    parse_more rec level lhs s none = value (lhs, s)
    parse_more rec level lhs s (some (op, rest)) =
        rec (operand level) rest >>= λ r. apply floats op lhs r.0 >>= λ n. rec (more level n) r.1

    -- One call, in which `rec` stands for the calls it makes.
    unfoldable pub parse_rule : Parser → Rule → Text → Reply (Num floats × Text)
    unfolding parse_primary parse_unary parse_squares parse_exponent parse_more find_operator
        operators skip_ws
    parse_rule rec (binary level) s = rec (operand level) s >>= λ r. rec (more level r.0) r.1
    parse_rule rec (more level lhs) s =
        parse_more rec level lhs (skip_ws s) (find_operator (operators level) (skip_ws s))
    parse_rule rec power s = rec unary s >>= λ r. parse_exponent rec r.0 (skip_ws r.1)
    parse_rule rec unary s = parse_unary rec (skip_ws s)
    parse_rule rec postfix s = rec primary s >>= λ r. rec (squares r.0) r.1
    parse_rule rec (squares v) s = parse_squares rec v (skip_ws s)
    parse_rule rec primary s = parse_primary rec (skip_ws s)

    unfoldable pub parse : (fuel : ℕ) → Parser
    unfolding parse_rule
    parse zero rule s = starved
    parse (suc fuel) rule s = parse_rule (λ rule s. parse fuel rule s) rule s

    -- Enough for any expression.
    abbrev pub fuel_for : Text → ℕ
    fuel_for expr = 16 * length expr + 16

    abbrev pub no_trailing : Text → Num floats → Text → Reply (Num floats)
    no_trailing expr v [] = value v
    no_trailing expr v (_ ∷ _) =
        failed (codes "unexpected trailing input in expression '" ++ (expr ++ codes "'"))

    unfoldable pub eval : Text → Reply (Num floats)
    unfolding parse skip_ws
    eval expr = parse (fuel_for expr) (binary or) expr >>= λ r. no_trailing expr r.0 (skip_ws r.1)
