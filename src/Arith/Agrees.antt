-- ===== src/Arith/Agrees.antt =====
-- The evaluator of src/arith.rs gives a written expression its meaning.
use ion_win.Base.{
  ◌⊎◌, ℕ, zero, suc, ◌+◌, ◌*◌, ◌^◌, ◌<◌, ◌≡◌, refl, sym, ◌∙◌, ap, subst, inl, inr, false, Option,
  none, some, [], ◌∷◌, ◌++◌, Text, All, ◌==◌, length, arith, codes,
}
use ion_win.Base.Chars.{is_whitespace, is_digit}
use ion_win.Base.Decimal.{to_string}
use ion_win.Base.Decimal.Reads.{IsDigit, to_string-Digits, parse_i64-to_string}
use ion_win.Builtins.{starts_with}
use ion_win.Arith.Words.{wrap}
use ion_win.Arith.Numbers.{
  Floats, Reply, value, failed, panicked, starved, ◌>>=◌, Level, or, Operator, operators,
  find_operator, skip_ws, Num, int, apply, negate,
}
use ion_win.Arith.{
  Rule, binary, more, power, unary, squares, operand, number_text, parse_number, Parser, close,
  parse_primary, parse_unary, parse_squares, parse_exponent, parse_more, parse_rule, parse,
}

pub >>=-assoc :
    {A B C : Type 0} (m : Reply A) (f : A → Reply B) (g : B → Reply C)
    → ((m >>= f) >>= g) ≡ (m >>= λ a. f a >>= g)
>>=-assoc (value a) f g = refl
>>=-assoc (failed message) f g = refl
>>=-assoc panicked f g = refl
>>=-assoc starved f g = refl

pub >>=-ext :
    {A B : Type 0} (m : Reply A) (f g : A → Reply B) → ((a : A) → f a ≡ g a) → (m >>= f) ≡ (m >>= g)
>>=-ext (value a) f g h = h a
>>=-ext (failed message) f g h = refl
>>=-ext panicked f g h = refl
>>=-ext starved f g h = refl

-- What may stand behind an operand: no white space, digit, point, power or square.
pub record Quiet (rest : Text) : Type 0 where
  pub skips : skip_ws rest ≡ rest
  pub no_power : starts_with rest (codes "**") ≡ false
  pub no_number :
      (rest ≡ [])
      ⊎ ((c : ℕ) × (s : Text) × (rest ≡ c ∷ s)
          × (is_digit c ≡ false)
          × ((c == 46) ≡ false)
          × ((c == 178) ≡ false)
          × ((c == 179) ≡ false))

digit-is_whitespace : (c : ℕ) → IsDigit c → is_whitespace c ≡ false
unfolding is_whitespace
digit-is_whitespace c d = ground (arith, d)

module _ (floats : Floats) where
  number_text-digits :
      (s rest : Text)
      → All IsDigit s
      → Quiet rest
      → number_text floats false (s ++ rest) ≡ ((s, rest), false)
  unfolding number_text
  number_text-digits [] rest h q = elim q.no_number [
    | inl e ↦ rw e refl
    | inr (c, t, e, d, p, _, _) ↦ rw (e, number_text, d, p) refl
  ]
  number_text-digits (c ∷ s) rest (d, ds) q =
      rw (number_text, d, number_text-digits s rest ds q) refl

  parse_number-to_string :
      (n : ℕ) (rest : Text)
      → n < 2 ^ 63
      → Quiet rest
      → parse_number floats (to_string n ++ rest) ≡ value (int n, rest)
  unfolding parse_number
  parse_number-to_string n rest h q =
      let (c, s, e, d, ds) = to_string-Digits n in
      let all : All IsDigit (to_string n) = subst (All IsDigit) (sym e) (d, ds) in
      let small : wrap n ≡ n = omega (arith, h) in
      rw (number_text-digits (to_string n) rest all q, parse_i64-to_string n h)
        (ap (λ v. value (int v, rest)) small)

  module _ (lookup : Text → Option Text) where
    -- With enough fuel, a rule reads the text as a reply with `rest` left over.
    unfoldable pub ReadAs : Rule floats → ℕ → Text → Reply (Num floats) → Text → Type 0
    ReadAs rule lo s m rest =
        (fuel : ℕ)
        → 16 * length s + lo < fuel
        → parse floats lookup fuel rule s ≡ (m >>= λ v. value (v, rest))

    squares-ReadAs :
        (fuel : ℕ) (v : Num floats) (rest : Text)
        → Quiet rest
        → parse floats lookup (suc fuel) (squares v) rest ≡ value (v, rest)
    unfolding parse parse_rule parse_squares
    squares-ReadAs fuel v rest q = rw q.skips (elim q.no_number [
      | inl e ↦ rw e refl
      | inr (c, t, e, _, _, two, three) ↦ rw (e, two, three) refl
    ])

    more-ReadAs :
        (fuel : ℕ) (level : Level) (v : Num floats) (rest : Text)
        → Quiet rest
        → find_operator (operators level) rest ≡ none
        → parse floats lookup (suc fuel) (more level v) rest ≡ value (v, rest)
    unfolding parse parse_rule parse_more
    more-ReadAs fuel level v rest q e = rw (q.skips, e) refl

    pub binary-ReadAs :
        (level : Level) (lo : ℕ) (s : Text) (m : Reply (Num floats)) (rest : Text)
        → Quiet rest
        → find_operator (operators level) rest ≡ none
        → ReadAs (operand floats level) lo s m rest
        → ReadAs (binary level) (suc lo) s m rest
    unfolding parse parse_rule ReadAs
    binary-ReadAs level lo s m rest q e h zero f = absurd (omega (arith, f))
    binary-ReadAs level lo s m rest q e h (suc zero) f = absurd (omega (arith, f))
    binary-ReadAs level lo s m rest q e h (suc (suc fuel)) f =
        ap (λ o. o >>= λ r. parse floats lookup (suc fuel) (more level r.0) r.1)
          (h (suc fuel) (omega (arith, f)))
        ∙ >>=-assoc m _ _
        ∙ >>=-ext m _ _ (λ v. more-ReadAs fuel level v rest q e)

    pub power-ReadAs :
        (s : Text) (m : Reply (Num floats)) (rest : Text)
        → Quiet rest
        → ReadAs unary 2 s m rest
        → ReadAs power 3 s m rest
    unfolding parse parse_rule ReadAs parse_exponent
    power-ReadAs s m rest q h zero f = absurd (omega (arith, f))
    power-ReadAs s m rest q h (suc fuel) f =
        ap
          (λ o. o >>= λ r.
            parse_exponent floats lookup (λ rule s. parse floats lookup fuel rule s) r.0
              (skip_ws r.1))
          (h fuel (omega (arith, f)))
        ∙ >>=-assoc m _ _
        ∙ >>=-ext m _ _ (λ v. rw (q.skips, q.no_power) refl)

    primary_digit :
        (rec : Parser floats lookup) (c : ℕ) (s : Text)
        → IsDigit c
        → parse_primary floats lookup rec (c ∷ s) ≡ parse_number floats (c ∷ s)
    unfolding parse_primary
    primary_digit rec c s d =
        let paren : (c == 40) ≡ false = ground (arith, d) in rw (paren, d) refl

    digit-ReadAs :
        (fuel c : ℕ) (s : Text) (v : Num floats) (rest : Text)
        → IsDigit c
        → parse_number floats (c ∷ s) ≡ value (v, rest)
        → Quiet rest
        → 16 * length (c ∷ s) + 2 < fuel
        → parse floats lookup fuel unary (c ∷ s) ≡ value (v, rest)
    unfolding parse parse_rule parse_unary skip_ws
    digit-ReadAs zero c s v rest d e q f = absurd (omega (arith, f))
    digit-ReadAs (suc zero) c s v rest d e q f = absurd (omega (arith, f))
    digit-ReadAs (suc (suc zero)) c s v rest d e q f = absurd (omega (arith, f))
    digit-ReadAs (suc (suc (suc fuel))) c s v rest d e q f =
        let space : is_whitespace c ≡ false = digit-is_whitespace c d in
        let minus : (c == 45) ≡ false = ground (arith, d) in
        let plus : (c == 43) ≡ false = ground (arith, d) in
        let tilde : (c == 126) ≡ false = ground (arith, d) in
        rw (space, minus, plus, tilde, space)
          (ap (λ o. o >>= λ r. parse floats lookup (suc fuel) (squares r.0) r.1)
              (primary_digit (λ rule s. parse floats lookup fuel rule s) c s d ∙ e)
            ∙ squares-ReadAs fuel v rest q)

    -- The text of a number, behind which the operand ends.
    pub number-ReadAs :
        (n : ℕ) (rest : Text)
        → n < 2 ^ 63
        → Quiet rest
        → ReadAs unary 2 (to_string n ++ rest) (value (int n)) rest
    unfolding ReadAs
    number-ReadAs n rest h q fuel f =
        let (c, s, e, d, ds) = to_string-Digits n in
        ap (parse floats lookup fuel unary) (ap (λ t. t ++ rest) e)
        ∙ digit-ReadAs fuel c (s ++ rest) (int n) rest d
            (ap (parse_number floats) (ap (λ t. t ++ rest) (sym e))
              ∙ parse_number-to_string n rest h q)
            q (subst (λ t. 16 * length (t ++ rest) + 2 < fuel) e f)

    -- A parenthesis around an expression.
    pub paren-ReadAs :
        (s : Text) (m : Reply (Num floats)) (rest : Text)
        → Quiet rest
        → ReadAs (binary or) 9 s m (41 ∷ rest)
        → ReadAs unary 2 (40 ∷ s) m rest
    unfolding ReadAs parse parse_rule parse_unary parse_primary close skip_ws is_whitespace
    paren-ReadAs s m rest q h zero f = absurd (omega (arith, f))
    paren-ReadAs s m rest q h (suc zero) f = absurd (omega (arith, f))
    paren-ReadAs s m rest q h (suc (suc zero)) f = absurd (omega (arith, f))
    paren-ReadAs s m rest q h (suc (suc (suc fuel))) f =
        ap
          (λ o. (o >>= λ r. close floats lookup r.0 (skip_ws r.1)) >>= λ r.
            parse floats lookup (suc fuel) (squares r.0) r.1)
          (h fuel (omega (arith, f)))
        ∙ ap (λ o. o >>= λ r. parse floats lookup (suc fuel) (squares r.0) r.1) (>>=-assoc m _ _)
        ∙ >>=-assoc m _ _
        ∙ >>=-ext m _ _ (λ v. squares-ReadAs fuel v rest q)

    pub minus-ReadAs :
        (s : Text) (m : Reply (Num floats)) (rest : Text)
        → ReadAs unary 2 s m rest
        → ReadAs unary 2 (45 ∷ s) (m >>= λ v. value (negate floats v)) rest
    unfolding ReadAs parse parse_rule parse_unary skip_ws is_whitespace
    minus-ReadAs s m rest h zero f = absurd (omega (arith, f))
    minus-ReadAs s m rest h (suc fuel) f =
        ap (λ o. o >>= λ r. value (negate floats r.0, r.1)) (h fuel (omega (arith, f)))
        ∙ >>=-assoc m _ _
        ∙ sym (>>=-assoc m _ _)

    -- Two operands with an operator of the level between them.
    pub calc-ReadAs :
        (op : Operator) (level : Level) (lo : ℕ) (s t u : Text) (ma mb : Reply (Num floats))
        (rest : Text)
        → Quiet t
        → Quiet rest
        → find_operator (operators level) t ≡ some (op, u)
        → find_operator (operators level) rest ≡ none
        → length u < length s
        → ReadAs (operand floats level) lo s ma t
        → ReadAs (operand floats level) lo u mb rest
        → ReadAs (binary level) (suc lo) s (ma >>= λ x. mb >>= λ y. apply floats op x y) rest
    unfolding ReadAs parse parse_rule parse_more
    calc-ReadAs op level lo s t u ma mb rest qt q e n shorter ha hb zero f =
        absurd (omega (arith, f))
    calc-ReadAs op level lo s t u ma mb rest qt q e n shorter ha hb (suc zero) f =
        absurd (omega (arith, f))
    calc-ReadAs op level lo s t u ma mb rest qt q e n shorter ha hb (suc (suc zero)) f =
        absurd (omega (arith, f, shorter))
    calc-ReadAs op level lo s t u ma mb rest qt q e n shorter ha hb (suc (suc (suc fuel))) f =
        ap (λ o. o >>= λ r. parse floats lookup (suc (suc fuel)) (more level r.0) r.1)
          (ha (suc (suc fuel)) (omega (arith, f)))
        ∙ >>=-assoc ma _ _
        ∙ >>=-ext ma _ _ (λ x.
          rw (qt.skips, e)
            (ap
                (λ o. o >>= λ r.
                  apply floats op x r.0 >>= λ v. parse floats lookup (suc fuel) (more level v) r.1)
                (hb (suc fuel) (omega (arith, f, shorter)))
              ∙ >>=-assoc mb _ _
              ∙ >>=-ext mb _ _
                  (λ y. >>=-ext (apply floats op x y) _ _ (λ v. more-ReadAs fuel level v rest q n))
              ∙ sym (>>=-assoc mb _ _)))
        ∙ sym (>>=-assoc ma _ _)
