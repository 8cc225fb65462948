-- ===== src/Arith/Fuel.antt =====
-- The parser of src/arith.rs comes to its end, and its integers fit 64 bits.
use ion_win.Base.{
  ℕ, suc, ◌+◌, ◌*◌, ◌≤◌, ◌<◌, ◌≡◌, inl, inr, Bool, true, false, ◌||◌, Option, [], ◌∷◌, Text,
  if◌then◌else◌, ◌==◌, length, Bool-cases, arith,
}
use ion_win.Base.Chars.{is_digit}
use ion_win.Base.Parse.{parse_i64}
use ion_win.Arith.Numbers.{
  Floats, Level, or, xor, and, shift, additive, multiplicative, skip_ws, Num, complement,
}
use ion_win.Arith.{
  Rule, binary, more, power, unary, postfix, squares, number_text, name_text, int_of, float_of,
  parse_number, variable_value, parse_identifier, Parser, close, parse_primary, parse_unary,
  invalid_number,
}
use ion_win.Arith.Values.{
  Holds, Holds-bind, Holds-weaken, length-skip_ws, InRange, negate-InRange, complement-InRange,
  variable_value-InRange, number_text-first, name_text-first, number-InRange,
}

unfoldable pub rank_of : Level → ℕ
rank_of or = 9
rank_of xor = 8
rank_of and = 7
rank_of shift = 6
rank_of additive = 5
rank_of multiplicative = 4

module _ (floats : Floats) where
  unfoldable pub rank : Rule floats → ℕ
  unfolding rank_of
  rank (binary level) = rank_of level
  rank power = 3
  rank unary = 2
  rank postfix = 1
  rank _ = 0

  unfoldable pub RuleOk : Rule floats → Type 0
  RuleOk (more level v) = InRange floats v
  RuleOk (squares v) = InRange floats v
  RuleOk _ = Unit

  -- A loop may read nothing.
  unfoldable pub After : Rule floats → Text → Num floats × Text → Type 0
  After (more level v) s (n, rest) = InRange floats n × (length rest ≤ length s)
  After (squares v) s (n, rest) = InRange floats n × (length rest ≤ length s)
  After _ s (n, rest) = InRange floats n × (length rest < length s)

  unfoldable pub Reads : ℕ → Text → Num floats × Text → Type 0
  Reads k s (n, rest) = InRange floats n × (length rest + k ≤ length s)

  parse_number-Reads :
      (c : ℕ) (s : Text)
      → (is_digit c || c == 46) ≡ true
      → Holds (Reads 1 (c ∷ s)) (parse_number floats (c ∷ s))
  unfolding parse_number Reads
  parse_number-Reads c s h =
      let r : (Text × Text) × Bool = number_text floats false (c ∷ s) in
      Holds-bind
        (if r.1
          then float_of floats (floats.parse (r.0).0) (invalid_number floats (r.0).0)
          else int_of floats (parse_i64 (r.0).0) (r.0).0)
        _ (InRange floats) _ (number-InRange floats r.1 (r.0).0)
        (λ n v. (v, omega (arith, number_text-first floats c s h)))

  module _ (lookup : Text → Option Text) where
    parse_identifier-Reads :
        (c : ℕ) (s : Text)
        → (floats.is_alphabetic c || c == 95) ≡ true
        → Holds (Reads 1 (c ∷ s)) (parse_identifier floats lookup (c ∷ s))
    unfolding parse_identifier Reads
    parse_identifier-Reads c s h =
        Holds-bind
          (variable_value floats (name_text floats (c ∷ s)).0 (lookup (name_text floats (c ∷ s)).0))
          _ (InRange floats) _
          (variable_value-InRange floats (name_text floats (c ∷ s)).0
            (lookup (name_text floats (c ∷ s)).0))
          (λ n v. (v, omega (arith, name_text-first floats c s h)))

    -- What the calls it makes are allowed to rely on: there are `n` units of fuel.
    abbrev pub Enough : ℕ → Parser floats lookup → Type 0
    Enough n rec =
        (rule : Rule floats) (s : Text)
        → RuleOk rule
        → 16 * length s + rank rule < n
        → Holds (After rule s) (rec rule s)

    close-Reads :
        (v : Num floats) (s : Text) → InRange floats v → Holds (Reads 1 s) (close floats lookup v s)
    unfolding close Reads
    close-Reads v [] h = tt
    close-Reads v (c ∷ s) h = elim (Bool-cases (c == 41)) [
      | inl e ↦ rw e (h, omega arith)
      | inr e ↦ rw e tt
    ]

    pub parse_primary-Reads :
        (n : ℕ) (rec : Parser floats lookup) (s : Text)
        → Enough n rec
        → 16 * length s < suc n
        → Holds (Reads 1 s) (parse_primary floats lookup rec s)
    unfolding parse_primary Reads After rank rank_of RuleOk
    parse_primary-Reads n rec [] go h = tt
    parse_primary-Reads n rec (c ∷ s) go h = elim (Bool-cases (c == 40)) [
      | inl e ↦ rw e (
          Holds-bind (rec (binary or) s) _ (After (binary or) s) _
            (go (binary or) s tt (omega (arith, h)))
            (λ (v, rest) (ok, shorter).
              Holds-weaken (close floats lookup v (skip_ws rest)) _ _
                (close-Reads v (skip_ws rest) ok)
                (λ (w, left_over) (fine, less).
                  (fine, omega (arith, less, shorter, length-skip_ws rest)))))
      | inr e ↦ elim (Bool-cases (is_digit c || c == 46)) [
        | inl f ↦ rw (e, f) (parse_number-Reads c s f)
        | inr f ↦ elim (Bool-cases (floats.is_alphabetic c || c == 95)) [
          | inl g ↦ rw (e, f, g) (parse_identifier-Reads c s g)
          | inr g ↦ rw (e, f, g) tt
        ]
      ]
    ]

    pub parse_unary-Reads :
        (n : ℕ) (rec : Parser floats lookup) (s : Text)
        → Enough n rec
        → 16 * length s + 2 < suc n
        → Holds (Reads 1 s) (parse_unary floats lookup rec s)
    unfolding parse_unary Reads After rank RuleOk
    parse_unary-Reads n rec [] go h =
        Holds-weaken (rec postfix []) _ _ (go postfix [] tt (omega (arith, h)))
          (λ (v, rest) (ok, less). (ok, omega (arith, less)))
    parse_unary-Reads n rec (c ∷ s) go h =
        let inner : Holds (After unary s) (rec unary s) = go unary s tt (omega (arith, h)) in
        elim (Bool-cases (c == 45)) [
          | inl e ↦ rw e (
              Holds-bind (rec unary s) _ (After unary s) _ inner
                (λ (v, rest) (ok, less). (negate-InRange floats v, omega (arith, less))))
          | inr e ↦ elim (Bool-cases (c == 43)) [
            | inl f ↦
                rw (e, f)
                  (Holds-weaken (rec unary s) _ _ inner
                    (λ (v, rest) (ok, less). (ok, omega (arith, less))))
            | inr f ↦ elim (Bool-cases (c == 126)) [
              | inl g ↦
                  rw (e, f, g)
                    (Holds-bind (rec unary s) _ (After unary s) _ inner (λ (v, rest) (ok, less).
                      Holds-bind (complement floats v) _ (InRange floats) _
                        (complement-InRange floats v) (λ w fine. (fine, omega (arith, less)))))
              | inr g ↦
                  rw (e, f, g)
                    (Holds-weaken (rec postfix (c ∷ s)) _ _
                      (go postfix (c ∷ s) tt (omega (arith, h)))
                      (λ (v, rest) (ok, less). (ok, omega (arith, less))))
            ]
          ]
        ]
