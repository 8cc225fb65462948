-- ===== src/Arith/Written.antt =====
-- Written expressions, read level by level.
use ion_win.Base.{
  ℕ, ◌<◌, ◌≡◌, refl, ap, inl, inr, false, none, some, [], ◌∷◌, ◌++◌, Text, ◌==◌, length,
  length-append, arith,
}
use ion_win.Base.Chars.{is_whitespace}
use ion_win.Base.Decimal.{to_string}
use ion_win.Base.Decimal.Reads.{to_string-Digits}
use ion_win.Builtins.{starts_with}
use ion_win.Arith.Numbers.{
  Level, or, xor, and, shift, additive, multiplicative, Operator, bit_or, bit_xor, bit_and, shl,
  shr, plus, minus, times, divided, modulo, operators, find_operator, skip_ws,
}
use ion_win.Arith.Spec.{Expr, number, negated, calc, symbol, print}
use ion_win.Arith.Agrees.{Quiet}

unfoldable pub level_of : Operator → Level
level_of bit_or = or
level_of bit_xor = xor
level_of bit_and = and
level_of shl = shift
level_of shr = shift
level_of plus = additive
level_of minus = additive
level_of times = multiplicative
level_of divided = multiplicative
level_of modulo = multiplicative

abbrev pub NoOperator : Level → Text → Type 0
NoOperator level rest = find_operator (operators level) rest ≡ none

-- No operator that binds closer than those of a level.
abbrev pub NoneBelow : Level → Text → Type 0
NoneBelow multiplicative rest = Unit
NoneBelow additive rest = NoOperator multiplicative rest
NoneBelow shift rest = NoOperator multiplicative rest × NoOperator additive rest
NoneBelow and rest =
    NoOperator multiplicative rest × NoOperator additive rest × NoOperator shift rest
NoneBelow xor rest =
    NoOperator multiplicative rest
    × NoOperator additive rest
    × NoOperator shift rest
    × NoOperator and rest
NoneBelow or rest =
    NoOperator multiplicative rest
    × NoOperator additive rest
    × NoOperator shift rest
    × NoOperator and rest
    × NoOperator xor rest

abbrev pub operand_rank : Level → ℕ
operand_rank multiplicative = 3
operand_rank additive = 4
operand_rank shift = 5
operand_rank and = 6
operand_rank xor = 7
operand_rank or = 8

-- What an expression begins with is no asterisk.
unfoldable pub NotStar : Text → Type 0
NotStar s = (c : ℕ) × (t : Text) × (s ≡ c ∷ t) × ((c == 42) ≡ false)

pub print-NotStar : (e : Expr) (rest : Text) → NotStar (print e rest)
unfolding print NotStar
print-NotStar (number n) rest =
    let (c, s, e, d, ds) = to_string-Digits n in
    (c, s ++ rest, ap (λ t. t ++ rest) e, ground (arith, d))
print-NotStar (negated e) rest = (45, print e rest, refl, refl)
print-NotStar (calc op a b) rest = (40, print a (symbol op ++ print b (41 ∷ rest)), refl, refl)

pub length-print : (e : Expr) (rest : Text) → length rest < length (print e rest)
unfolding print symbol
length-print (number n) rest =
    let (c, s, e, d, ds) = to_string-Digits n in
    omega (arith, length-append (to_string n) rest, ap length e)
length-print (negated e) rest = omega (arith, length-print e rest)
length-print (calc op a b) rest = omega (
  arith,
  length-print a (symbol op ++ print b (41 ∷ rest)),
  length-append (symbol op) (print b (41 ∷ rest)),
  length-print b (41 ∷ rest),
)

pub find-symbol :
    (op : Operator) (t : Text)
    → find_operator (operators (level_of op)) (symbol op ++ t) ≡ some (op, t)
unfolding find_operator operators level_of symbol starts_with
find-symbol bit_or t = refl
find-symbol bit_xor t = refl
find-symbol bit_and t = refl
find-symbol shl t = refl
find-symbol shr t = refl
find-symbol plus t = refl
find-symbol minus t = refl
find-symbol times t = refl
find-symbol divided t = refl
find-symbol modulo t = refl

pub symbol-NoneBelow : (op : Operator) (t : Text) → NoneBelow (level_of op) (symbol op ++ t)
unfolding find_operator operators level_of symbol starts_with
symbol-NoneBelow bit_or t = (refl, refl, refl, refl, refl)
symbol-NoneBelow bit_xor t = (refl, refl, refl, refl)
symbol-NoneBelow bit_and t = (refl, refl, refl)
symbol-NoneBelow shl t = (refl, refl)
symbol-NoneBelow shr t = (refl, refl)
symbol-NoneBelow plus t = refl
symbol-NoneBelow minus t = refl
symbol-NoneBelow times t = tt
symbol-NoneBelow divided t = tt
symbol-NoneBelow modulo t = tt

pub symbol-length : (op : Operator) (t : Text) → length t < length (symbol op ++ t)
unfolding symbol
symbol-length bit_or t = omega arith
symbol-length bit_xor t = omega arith
symbol-length bit_and t = omega arith
symbol-length shl t = omega arith
symbol-length shr t = omega arith
symbol-length plus t = omega arith
symbol-length minus t = omega arith
symbol-length times t = omega arith
symbol-length divided t = omega arith
symbol-length modulo t = omega arith

pub symbol-Quiet : (op : Operator) (t : Text) → NotStar t → Quiet (symbol op ++ t)
unfolding symbol skip_ws is_whitespace starts_with NotStar
symbol-Quiet bit_or t h = record {
  skips = refl;
  no_power = refl;
  no_number = inr (124, t, refl, refl, refl, refl, refl);
}
symbol-Quiet bit_xor t h = record {
  skips = refl;
  no_power = refl;
  no_number = inr (94, t, refl, refl, refl, refl, refl);
}
symbol-Quiet bit_and t h = record {
  skips = refl;
  no_power = refl;
  no_number = inr (38, t, refl, refl, refl, refl, refl);
}
symbol-Quiet shl t h = record {
  skips = refl;
  no_power = refl;
  no_number = inr (60, 60 ∷ t, refl, refl, refl, refl, refl);
}
symbol-Quiet shr t h = record {
  skips = refl;
  no_power = refl;
  no_number = inr (62, 62 ∷ t, refl, refl, refl, refl, refl);
}
symbol-Quiet plus t h = record {
  skips = refl;
  no_power = refl;
  no_number = inr (43, t, refl, refl, refl, refl, refl);
}
symbol-Quiet minus t h = record {
  skips = refl;
  no_power = refl;
  no_number = inr (45, t, refl, refl, refl, refl, refl);
}
symbol-Quiet times t (c, s, e, f) = record {
  skips = refl;
  no_power = rw (e, f) refl;
  no_number = inr (42, t, refl, refl, refl, refl, refl);
}
symbol-Quiet divided t h = record {
  skips = refl;
  no_power = refl;
  no_number = inr (47, t, refl, refl, refl, refl, refl);
}
symbol-Quiet modulo t h = record {
  skips = refl;
  no_power = refl;
  no_number = inr (37, t, refl, refl, refl, refl, refl);
}

pub closed-Quiet : (rest : Text) → Quiet (41 ∷ rest)
unfolding skip_ws is_whitespace starts_with
closed-Quiet rest = record {
  skips = refl;
  no_power = refl;
  no_number = inr (41, rest, refl, refl, refl, refl, refl);
}

pub end-Quiet : Quiet []
unfolding skip_ws starts_with
end-Quiet = record { skips = refl; no_power = refl; no_number = inl refl }

-- A text at which no operator stands.
unfoldable pub NoOperators : Text → Type 0
NoOperators rest = NoneBelow or rest × NoOperator or rest

pub closed-NoOperators : (rest : Text) → NoOperators (41 ∷ rest)
unfolding NoOperators find_operator operators starts_with
closed-NoOperators rest = ((refl, refl, refl, refl, refl), refl)

pub end-NoOperators : NoOperators []
unfolding NoOperators find_operator operators starts_with
end-NoOperators = ((refl, refl, refl, refl, refl), refl)
