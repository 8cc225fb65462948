-- ===== src/Arith/Ends.antt =====
-- The evaluator of src/arith.rs answers every expression: the fuel is enough for it.
use ion_win.Base.{
  ℕ, zero, suc, ◌+◌, ◌*◌, ◌≤◌, ◌<◌, ◌≡◌, refl, subst, inl, inr, Option, none, some, List, [], ◌∷◌,
  Text, All, if◌then◌else◌, ◌==◌, length, drop, length-drop, Bool-cases, arith, codes,
}
use ion_win.Builtins.{starts_with}
use ion_win.Arith.Numbers.{
  Floats, Level, or, xor, and, shift, additive, multiplicative, Operator, operators, find_operator,
  skip_ws, Num, float, as_f64, apply,
}
use ion_win.Arith.{
  Rule, binary, more, power, unary, postfix, primary, squares, operand, Parser, parse_primary,
  parse_unary, parse_squares, parse_exponent, parse_more, parse_rule, parse, eval, no_trailing,
}
use ion_win.Arith.Values.{
  Holds, Holds-bind, Holds-weaken, length-skip_ws, starts_with-length, InRange, apply-InRange,
}
use ion_win.Arith.Fuel.{
  rank_of, rank, RuleOk, After, Reads, Enough, parse_primary-Reads, parse_unary-Reads,
}

HasLength : Text × Operator → Type 0
HasLength (symbol, op) = 0 < length symbol

operators-HasLength : (level : Level) → All HasLength (operators level)
unfolding operators HasLength
operators-HasLength or = (omega arith, tt)
operators-HasLength xor = (omega arith, tt)
operators-HasLength and = (omega arith, tt)
operators-HasLength shift = (omega arith, (omega arith, tt))
operators-HasLength additive = (omega arith, (omega arith, tt))
operators-HasLength multiplicative = (omega arith, (omega arith, (omega arith, tt)))

find_operator-length :
    (ops : List (Text × Operator)) (s : Text) (found : Operator × Text)
    → All HasLength ops
    → find_operator ops s ≡ some found
    → length found.1 < length s
unfolding find_operator HasLength
find_operator-length [] s found v h = absurd (cc h)
find_operator-length ((symbol, op) ∷ ops) s found (v, vs) h =
    elim (Bool-cases (starts_with s symbol)) [
      | inl e ↦
          let same : (op, drop (length symbol) s) ≡ found = cc (e, h) in
          subst (λ f. length f.1 < length s) same
            (omega (arith, v, length-drop (length symbol) s, starts_with-length s symbol e))
      | inr e ↦ find_operator-length ops s found vs (
          subst
            (λ b.
              (if b then some (op, drop (length symbol) s) else find_operator ops s) ≡ some found)
            e h)
    ]

module _ (floats : Floats) where
  rank-operand :
      (level : Level) → (rank floats (operand floats level) < rank_of level) × (rank_of level ≤ 9)
  unfolding rank rank_of
  rank-operand or = (omega arith, omega arith)
  rank-operand xor = (omega arith, omega arith)
  rank-operand and = (omega arith, omega arith)
  rank-operand shift = (omega arith, omega arith)
  rank-operand additive = (omega arith, omega arith)
  rank-operand multiplicative = (omega arith, omega arith)

  -- An operand reads something.
  operand-After :
      (level : Level) (s : Text) (r : Num floats × Text)
      → After floats (operand floats level) s r
      → InRange floats r.0 × (length r.1 < length s)
  unfolding After
  operand-After or s r h = h
  operand-After xor s r h = h
  operand-After and s r h = h
  operand-After shift s r h = h
  operand-After additive s r h = h
  operand-After multiplicative s r h = h

  operand-RuleOk : (level : Level) → RuleOk floats (operand floats level)
  unfolding RuleOk
  operand-RuleOk or = tt
  operand-RuleOk xor = tt
  operand-RuleOk and = tt
  operand-RuleOk shift = tt
  operand-RuleOk additive = tt
  operand-RuleOk multiplicative = tt

  module _ (lookup : Text → Option Text) where
    module _ (n : ℕ) (rec : Parser floats lookup) (go : Enough floats lookup n rec) where
      parse_squares-Reads :
          (v : Num floats) (s : Text)
          → InRange floats v
          → 16 * length s < suc n
          → Holds (Reads floats 0 s) (parse_squares floats lookup rec v s)
      unfolding parse_squares Reads After rank RuleOk
      parse_squares-Reads v [] ok h = (ok, omega arith)
      parse_squares-Reads v (c ∷ s) ok h = elim (Bool-cases (c == 178)) [
        | inl e ↦ rw e (
            Holds-weaken (rec (squares (float (floats.powf (as_f64 floats v) (floats.of_i64 2)))) s)
              _ _
              (go (squares (float (floats.powf (as_f64 floats v) (floats.of_i64 2)))) s tt
                (omega (arith, h)))
              (λ (w, rest) (fine, less). (fine, omega (arith, less))))
        | inr e ↦ elim (Bool-cases (c == 179)) [
          | inl f ↦
              rw (e, f)
                (Holds-weaken
                  (rec (squares (float (floats.powf (as_f64 floats v) (floats.of_i64 3)))) s) _ _
                  (go (squares (float (floats.powf (as_f64 floats v) (floats.of_i64 3)))) s tt
                    (omega (arith, h)))
                  (λ (w, rest) (fine, less). (fine, omega (arith, less))))
          | inr f ↦ rw (e, f) (ok, omega arith)
        ]
      ]

      parse_exponent-Reads :
          (base : Num floats) (s : Text)
          → InRange floats base
          → 16 * length s < n
          → Holds (Reads floats 0 s) (parse_exponent floats lookup rec base s)
      unfolding parse_exponent Reads After rank RuleOk
      parse_exponent-Reads base s ok h = elim (Bool-cases (starts_with s (codes "**"))) [
        | inl e ↦
            let long : 2 ≤ length s = starts_with-length s (codes "**") e in
            rw e (
              Holds-bind (rec power (drop 2 s)) _ (After floats power (drop 2 s)) _
                (go power (drop 2 s) tt (omega (arith, h, long, length-drop 2 s)))
                (λ (w, rest) (fine, less). (tt, omega (arith, less, length-drop 2 s))))
        | inr e ↦ rw e (ok, omega arith)
      ]

      again-Reads :
          (level : Level) (v : Num floats) (t s : Text)
          → InRange floats v
          → length t < length s
          → 16 * length s < suc n
          → Holds (Reads floats 0 s) (rec (more level v) t)
      unfolding After Reads rank RuleOk
      again-Reads level v t s good less h =
          Holds-weaken (rec (more level v) t) _ _
            (go (more level v) t good (omega (arith, less, h)))
            (λ (w, rest) (fine, le). (fine, omega (arith, le, less)))

      parse_more-Reads :
          (level : Level) (lhs : Num floats) (s : Text) (found : Option (Operator × Text))
          → InRange floats lhs
          → 16 * length s < suc n
          → ((f : Operator × Text) → found ≡ some f → length f.1 < length s)
          → Holds (Reads floats 0 s) (parse_more floats lookup rec level lhs s found)
      unfolding parse_more Reads
      parse_more-Reads level lhs s none ok h shorter = (ok, omega arith)
      parse_more-Reads level lhs s (some (op, rest)) ok h shorter =
          let less : length rest < length s = shorter (op, rest) refl in
          let (below, top) = rank-operand level in
          Holds-bind (rec (operand floats level) rest) _ (After floats (operand floats level) rest)
            _
            (go (operand floats level) rest (operand-RuleOk level)
              (omega (arith, h, less, below, top)))
            (λ (rhs, after_rhs) got.
              let (fine, less') = operand-After level rest (rhs, after_rhs) got in
              Holds-bind (apply floats op lhs rhs) _ (InRange floats) _
                (apply-InRange floats op lhs rhs)
                (λ v good. again-Reads level v after_rhs s good (omega (arith, less, less')) h))

      -- A rule whose calls do as they should does so too.
      parse_rule-After :
          (rule : Rule floats) (s : Text)
          → RuleOk floats rule
          → 16 * length s + rank floats rule < suc n
          → Holds (After floats rule s) (parse_rule floats lookup rec rule s)
      unfolding parse_rule After Reads rank RuleOk
      parse_rule-After (binary level) s ok h =
          let (below, top) = rank-operand level in
          Holds-bind (rec (operand floats level) s) _ (After floats (operand floats level) s) _
            (go (operand floats level) s (operand-RuleOk level) (omega (arith, h, below)))
            (λ (lhs, rest) got.
              let (fine, less) = operand-After level s (lhs, rest) got in
              Holds-weaken (rec (more level lhs) rest) _ _
                (go (more level lhs) rest fine (omega (arith, less, h)))
                (λ (w, left_over) (good, le). (good, omega (arith, le, less))))
      parse_rule-After (more level lhs) s ok h =
          Holds-weaken
            (parse_more floats lookup rec level lhs (skip_ws s)
              (find_operator (operators level) (skip_ws s)))
            _ _
            (parse_more-Reads level lhs (skip_ws s) (find_operator (operators level) (skip_ws s)) ok
              (omega (arith, h, length-skip_ws s))
              (λ f e.
                find_operator-length (operators level) (skip_ws s) f (operators-HasLength level) e))
            (λ (w, rest) (good, le). (good, omega (arith, le, length-skip_ws s)))
      parse_rule-After power s ok h =
          Holds-bind (rec unary s) _ (After floats unary s) _ (go unary s tt (omega (arith, h)))
            (λ (base, rest) (fine, less).
              Holds-weaken (parse_exponent floats lookup rec base (skip_ws rest)) _ _
                (parse_exponent-Reads base (skip_ws rest) fine
                  (omega (arith, less, h, length-skip_ws rest)))
                (λ (w, left_over) (good, le). (good, omega (arith, le, less, length-skip_ws rest))))
      parse_rule-After unary s ok h =
          Holds-weaken (parse_unary floats lookup rec (skip_ws s)) _ _
            (parse_unary-Reads floats lookup n rec (skip_ws s) go
              (omega (arith, h, length-skip_ws s)))
            (λ (w, rest) (good, le). (good, omega (arith, le, length-skip_ws s)))
      parse_rule-After postfix s ok h =
          Holds-bind (rec primary s) _ (After floats primary s) _
            (go primary s tt (omega (arith, h)))
            (λ (v, rest) (fine, less).
              Holds-weaken (rec (squares v) rest) _ _
                (go (squares v) rest fine (omega (arith, less, h)))
                (λ (w, left_over) (good, le). (good, omega (arith, le, less))))
      parse_rule-After primary s ok h =
          Holds-weaken (parse_primary floats lookup rec (skip_ws s)) _ _
            (parse_primary-Reads floats lookup n rec (skip_ws s) go
              (omega (arith, h, length-skip_ws s)))
            (λ (w, rest) (good, le). (good, omega (arith, le, length-skip_ws s)))
      parse_rule-After (squares v) s ok h =
          Holds-weaken (parse_squares floats lookup rec v (skip_ws s)) _ _
            (parse_squares-Reads v (skip_ws s) ok (omega (arith, h, length-skip_ws s)))
            (λ (w, rest) (good, le). (good, omega (arith, le, length-skip_ws s)))

    parse-After :
        (fuel : ℕ) (rule : Rule floats) (s : Text)
        → RuleOk floats rule
        → 16 * length s + rank floats rule < fuel
        → Holds (After floats rule s) (parse floats lookup fuel rule s)
    unfolding parse
    parse-After zero rule s ok h = absurd (omega (arith, h))
    parse-After (suc fuel) rule s ok h =
        parse_rule-After fuel (λ rule s. parse floats lookup fuel rule s)
          (λ rule s ok h. parse-After fuel rule s ok h) rule s ok h

    no_trailing-InRange :
        (expr : Text) (v : Num floats) (s : Text)
        → InRange floats v
        → Holds (InRange floats) (no_trailing floats lookup expr v s)
    no_trailing-InRange expr v [] h = h
    no_trailing-InRange expr v (_ ∷ _) h = tt

-- Whatever floats and the variables are: the evaluation of any expression comes to its end with the
-- fuel it is given, with a value, an error or a panic, and an integer that is its value fits 64
-- bits.
pub eval-InRange :
    (floats : Floats) (lookup : Text → Option Text) (expr : Text)
    → Holds (InRange floats) (eval floats lookup expr)
unfolding eval After rank rank_of RuleOk
eval-InRange floats lookup expr =
    Holds-bind (parse floats lookup (16 * length expr + 16) (binary or) expr) _
      (After floats (binary or) expr) _
      (parse-After floats lookup (16 * length expr + 16) (binary or) expr tt (omega arith))
      (λ (v, rest) (ok, less). no_trailing-InRange floats lookup expr v (skip_ws rest) ok)
