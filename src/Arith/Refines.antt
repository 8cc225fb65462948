-- ===== src/Arith/Refines.antt =====
-- The evaluator of src/arith.rs gives a written expression its meaning.
use ion_win.Base.{suc, ◌+◌, ◌*◌, ◌≡◌, refl, ◌∙◌, ap, Option, [], ◌∷◌, ◌++◌, Text, length, arith}
use ion_win.Arith.Numbers.{
  Floats, Reply, value, failed, panicked, starved, ◌>>=◌, Level, or, xor, and, shift, additive,
  multiplicative, skip_ws, Num,
}
use ion_win.Arith.{binary, unary, operand, eval, no_trailing}
use ion_win.Arith.Spec.{Expr, number, negated, calc, symbol, print, Fits, meaning}
use ion_win.Arith.Agrees.{
  >>=-assoc, Quiet, ReadAs, binary-ReadAs, power-ReadAs, number-ReadAs, paren-ReadAs, minus-ReadAs,
  calc-ReadAs,
}
use ion_win.Arith.Written.{
  level_of, NoOperator, NoneBelow, operand_rank, print-NotStar, length-print, find-symbol,
  symbol-NoneBelow, symbol-length, symbol-Quiet, closed-Quiet, end-Quiet, NoOperators,
  closed-NoOperators, end-NoOperators,
}

>>=-value : {A : Type 0} (m : Reply A) → (m >>= λ v. value v) ≡ m
>>=-value (value a) = refl
>>=-value (failed message) = refl
>>=-value panicked = refl
>>=-value starved = refl

NoOperators-level :
    (level : Level) (rest : Text) → NoOperators rest → NoOperator level rest × NoneBelow level rest
unfolding NoOperators
NoOperators-level or rest ((a, b, c, d, e), f) = (f, (a, b, c, d, e))
NoOperators-level xor rest ((a, b, c, d, e), f) = (e, (a, b, c, d))
NoOperators-level and rest ((a, b, c, d, e), f) = (d, (a, b, c))
NoOperators-level shift rest ((a, b, c, d, e), f) = (c, (a, b))
NoOperators-level additive rest ((a, b, c, d, e), f) = (b, a)
NoOperators-level multiplicative rest ((a, b, c, d, e), f) = (a, tt)

module _ (floats : Floats) (lookup : Text → Option Text) where
  -- Up to the operands of a level.
  OperandAt : Level → Type 0
  OperandAt level =
      (s : Text) (m : Reply (Num floats)) (rest : Text)
      → Quiet rest
      → NoneBelow level rest
      → ReadAs floats lookup unary 2 s m rest
      → ReadAs floats lookup (operand floats level) (operand_rank level) s m rest

  multiplicative-OperandAt : OperandAt multiplicative
  unfolding OperandAt
  multiplicative-OperandAt s m rest q n h = power-ReadAs floats lookup s m rest q h

  additive-OperandAt : OperandAt additive
  unfolding OperandAt
  additive-OperandAt s m rest q n h =
      binary-ReadAs floats lookup multiplicative 3 s m rest q n
        (multiplicative-OperandAt s m rest q tt h)

  shift-OperandAt : OperandAt shift
  unfolding OperandAt
  shift-OperandAt s m rest q (a, b) h =
      binary-ReadAs floats lookup additive 4 s m rest q b (additive-OperandAt s m rest q a h)

  and-OperandAt : OperandAt and
  unfolding OperandAt
  and-OperandAt s m rest q (a, b, c) h =
      binary-ReadAs floats lookup shift 5 s m rest q c (shift-OperandAt s m rest q (a, b) h)

  xor-OperandAt : OperandAt xor
  unfolding OperandAt
  xor-OperandAt s m rest q (a, b, c, d) h =
      binary-ReadAs floats lookup and 6 s m rest q d (and-OperandAt s m rest q (a, b, c) h)

  or-OperandAt : OperandAt or
  unfolding OperandAt
  or-OperandAt s m rest q (a, b, c, d, e) h =
      binary-ReadAs floats lookup xor 7 s m rest q e (xor-OperandAt s m rest q (a, b, c, d) h)

  operand-ReadAs : (level : Level) → OperandAt level
  operand-ReadAs or = or-OperandAt
  operand-ReadAs xor = xor-OperandAt
  operand-ReadAs and = and-OperandAt
  operand-ReadAs shift = shift-OperandAt
  operand-ReadAs additive = additive-OperandAt
  operand-ReadAs multiplicative = multiplicative-OperandAt

  -- From a level up to the whole expression.
  WholeAt : Level → Type 0
  WholeAt level =
      (s : Text) (m : Reply (Num floats)) (rest : Text)
      → Quiet rest
      → NoOperators rest
      → ReadAs floats lookup (binary level) (suc (operand_rank level)) s m rest
      → ReadAs floats lookup (binary or) 9 s m rest

  or-WholeAt : WholeAt or
  unfolding WholeAt
  or-WholeAt s m rest q n h = h

  xor-WholeAt : WholeAt xor
  unfolding WholeAt
  xor-WholeAt s m rest q n h =
      or-WholeAt s m rest q n
        (binary-ReadAs floats lookup or 8 s m rest q (NoOperators-level or rest n).0 h)

  and-WholeAt : WholeAt and
  unfolding WholeAt
  and-WholeAt s m rest q n h =
      xor-WholeAt s m rest q n
        (binary-ReadAs floats lookup xor 7 s m rest q (NoOperators-level xor rest n).0 h)

  shift-WholeAt : WholeAt shift
  unfolding WholeAt
  shift-WholeAt s m rest q n h =
      and-WholeAt s m rest q n
        (binary-ReadAs floats lookup and 6 s m rest q (NoOperators-level and rest n).0 h)

  additive-WholeAt : WholeAt additive
  unfolding WholeAt
  additive-WholeAt s m rest q n h =
      shift-WholeAt s m rest q n
        (binary-ReadAs floats lookup shift 5 s m rest q (NoOperators-level shift rest n).0 h)

  multiplicative-WholeAt : WholeAt multiplicative
  unfolding WholeAt
  multiplicative-WholeAt s m rest q n h =
      additive-WholeAt s m rest q n
        (binary-ReadAs floats lookup additive 4 s m rest q (NoOperators-level additive rest n).0 h)

  whole-ReadAs : (level : Level) → WholeAt level
  whole-ReadAs or = or-WholeAt
  whole-ReadAs xor = xor-WholeAt
  whole-ReadAs and = and-WholeAt
  whole-ReadAs shift = shift-WholeAt
  whole-ReadAs additive = additive-WholeAt
  whole-ReadAs multiplicative = multiplicative-WholeAt

  print-ReadAs :
      (e : Expr) (rest : Text)
      → Fits e
      → Quiet rest
      → ReadAs floats lookup unary 2 (print e rest) (meaning floats e) rest
  unfolding print Fits meaning OperandAt WholeAt
  print-ReadAs (number n) rest h q = number-ReadAs floats lookup n rest h q
  print-ReadAs (negated e) rest h q =
      minus-ReadAs floats lookup (print e rest) (meaning floats e) rest (print-ReadAs e rest h q)
  print-ReadAs (calc op a b) rest (ha, hb) q =
      let level : Level = level_of op in
      let closed : Text = 41 ∷ rest in
      let u : Text = print b closed in
      let t : Text = symbol op ++ u in
      let s : Text = print a t in
      let qt : Quiet t = symbol-Quiet op u (print-NotStar b closed) in
      let qc : Quiet closed = closed-Quiet rest in
      let (none_here, none_below) = NoOperators-level level closed (closed-NoOperators rest) in
      let left =
        operand-ReadAs level s (meaning floats a) t qt (symbol-NoneBelow op u)
          (print-ReadAs a t ha qt) in
      let right =
        operand-ReadAs level u (meaning floats b) closed qc none_below
          (print-ReadAs b closed hb qc) in
      paren-ReadAs floats lookup s (meaning floats (calc op a b)) rest q (
        whole-ReadAs level s (meaning floats (calc op a b)) closed qc (closed-NoOperators rest) (
          calc-ReadAs floats lookup op level (operand_rank level) s t u (meaning floats a)
            (meaning floats b) closed qt qc (find-symbol op u) none_here
            (omega (arith, symbol-length op u, length-print a t)) left right))

-- Whatever floats and the variables are: an expression of numbers that an `i64` can hold, unary
-- minus and the ten binary operators, written with a parenthesis around each binary operation, is
-- evaluated to its meaning. The operands are evaluated from left to right, and the first error or
-- panic is the answer.
pub eval-print :
    (floats : Floats) (lookup : Text → Option Text) (e : Expr)
    → Fits e
    → eval floats lookup (print e []) ≡ meaning floats e
unfolding eval ReadAs skip_ws OperandAt
eval-print floats lookup e h =
    let expr : Text = print e [] in
    let q : Quiet [] = end-Quiet in
    let (none_here, none_below) = NoOperators-level or [] end-NoOperators in
    let read = binary-ReadAs floats lookup or 8 expr (meaning floats e) [] q none_here (
      operand-ReadAs floats lookup or expr (meaning floats e) [] q none_below
        (print-ReadAs floats lookup e [] h q)) in
    ap (λ o. o >>= λ r. no_trailing floats lookup expr r.0 (skip_ws r.1))
      (read (16 * length expr + 16) (omega arith))
    ∙ >>=-assoc (meaning floats e) _ _
    ∙ >>=-value (meaning floats e)
