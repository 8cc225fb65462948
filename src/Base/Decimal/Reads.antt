-- ===== src/Base/Decimal/Reads.antt =====
-- A number that is printed in decimal is read back.
use ion_win.Base.{
  ◌-◌, ℕ, zero, suc, ◌+◌, ◌*◌, ◌/◌, ◌%◌, ◌^◌, ◌<◌, ◌≡◌, refl, sym, ◌∙◌, ap, inl, inr, true, false,
  some, [], ◌∷◌, Text, All, ◌==◌, ltb, leb, Bool-cases, arith,
}
use ion_win.Base.Chars.{is_digit}
use ion_win.Base.Decimal.{digits_fuel, to_string}
use ion_win.Base.Int.{pos}
use ion_win.Base.Parse.{parse_i64, digits, magnitude, parse_u64}

abbrev pub IsDigit : ℕ → Type 0
IsDigit c = is_digit c ≡ true

digits-digits_fuel :
    (f n : ℕ) (tail : Text) → n < f → digits 0 (digits_fuel f n tail) ≡ digits n tail
unfolding digits digits_fuel
digits-digits_fuel zero n tail h = absurd (omega (arith, h))
digits-digits_fuel (suc f) n tail h =
    let here : Text = (48 + n % 10) ∷ tail in
    let low : leb 48 (48 + n % 10) ≡ true = ground arith in
    let high : leb (48 + n % 10) 57 ≡ true = ground arith in
    elim (Bool-cases (ltb n 10)) [
      | inl e ↦
          let one : 0 * 10 + (48 + n % 10 - 48) ≡ n = ground arith in
          rw (digits_fuel, e, low, high) (ap (λ v. digits v tail) one)
      | inr e ↦
          let more : n / 10 * 10 + (48 + n % 10 - 48) ≡ n = ground arith in
          rw (digits_fuel, e)
            (digits-digits_fuel f (n / 10) here (ground arith)
              ∙ rw (low, high) (ap (λ v. digits v tail) more))
    ]

-- A digit, then digits.
abbrev Digits : Text → Type 0
Digits [] = ⊥
Digits (c ∷ s) = IsDigit c × All IsDigit s

digits_fuel-Digits :
    (f n : ℕ) (tail : Text) → n < f → All IsDigit tail → Digits (digits_fuel f n tail)
unfolding digits_fuel
digits_fuel-Digits zero n tail h k = absurd (omega (arith, h))
digits_fuel-Digits (suc f) n tail h k =
    let low : leb 48 (48 + n % 10) ≡ true = ground arith in
    let high : leb (48 + n % 10) 57 ≡ true = ground arith in
    let first : IsDigit (48 + n % 10) = rw (low, high) refl in
    elim (Bool-cases (ltb n 10)) [
      | inl e ↦ rw (digits_fuel, e) (first, k)
      | inr e ↦
          rw (digits_fuel, e)
            (digits_fuel-Digits f (n / 10) ((48 + n % 10) ∷ tail) (ground arith) (first, k))
    ]

pub to_string-Digits :
    (n : ℕ) → (c : ℕ) × (s : Text) × (to_string n ≡ c ∷ s) × IsDigit c × All IsDigit s
unfolding to_string
to_string-Digits n =
    go (digits_fuel (suc n) n []) (digits_fuel-Digits (suc n) n [] (omega arith) tt)
  where
    go : (t : Text) → Digits t → (c : ℕ) × (s : Text) × (t ≡ c ∷ s) × IsDigit c × All IsDigit s
    go [] h = absurd h
    go (c ∷ s) (d, ds) = (c, s, refl, d, ds)

pub parse_u64-to_string : (n : ℕ) → n < 2 ^ 64 → parse_u64 (to_string n) ≡ some n
unfolding parse_u64 magnitude to_string
parse_u64-to_string n h =
    let (c, s, e, d, ds) = to_string-Digits n in
    let read : digits 0 (c ∷ s) ≡ some n =
      ap (digits 0) (sym e) ∙ digits-digits_fuel (suc n) n [] (omega arith) in
    let plus : (c == 43) ≡ false = ground (arith, d) in
    let fits : ltb n (2 ^ 64) ≡ true = ground (arith, h) in
    ap parse_u64 e ∙ rw (plus, read, fits) refl

pub parse_i64-to_string : (n : ℕ) → n < 2 ^ 63 → parse_i64 (to_string n) ≡ some (pos n)
unfolding parse_i64 magnitude to_string
parse_i64-to_string n h =
    let (c, s, e, d, ds) = to_string-Digits n in
    let read : digits 0 (c ∷ s) ≡ some n =
      ap (digits 0) (sym e) ∙ digits-digits_fuel (suc n) n [] (omega arith) in
    let plus : (c == 43) ≡ false = ground (arith, d) in
    let minus : (c == 45) ≡ false = ground (arith, d) in
    let fits : ltb n (2 ^ 63) ≡ true = ground (arith, h) in
    ap parse_i64 e ∙ rw (plus, minus, read, fits) refl
