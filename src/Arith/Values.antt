-- ===== src/Arith/Values.antt =====
-- The integers of src/arith.rs fit 64 bits, and numbers and names are read from the text.
use ion_win.Base.{
  ℕ, ◌^◌, ◌≤◌, ◌<◌, ◌≡◌, refl, subst, inl, inr, Bool, true, false, not, ◌&&◌, ◌||◌, Option, none,
  some, [], ◌∷◌, Text, if◌then◌else◌, ◌==◌, length, Bool-cases, Option-cases, arith,
}
use ion_win.Base.Chars.{is_whitespace, is_digit}
use ion_win.Base.Int.{ℤ, pos, negsuc}
use ion_win.Base.Parse.{parse_i64}
use ion_win.Builtins.{starts_with}
use ion_win.Arith.Words.{word_of, shift_right, remainder, overflows, is_negative}
use ion_win.Arith.Numbers.{
  Floats, Reply, value, failed, panicked, starved, ◌>>=◌, Operator, bit_or, bit_xor, bit_and, shl,
  shr, plus, minus, times, divided, modulo, skip_ws, Num, int, float, int_op, numeric_op, modulus,
  apply, negate, complement,
}
use ion_win.Arith.{
  number_text, name_text, int_of, float_of, variable_value, invalid_number, not_a_number,
}

-- Not starved, and a value is as said.
abbrev pub Holds : {A : Type 0} → (A → Type 0) → Reply A → Type 0
Holds P (value a) = P a
Holds P (failed message) = Unit
Holds P panicked = Unit
Holds P starved = ⊥

pub Holds-bind :
    {A B : Type 0} (m : Reply A) (f : A → Reply B) (P : A → Type 0) (Q : B → Type 0)
    → Holds P m
    → ((a : A) → P a → Holds Q (f a))
    → Holds Q (m >>= f)
Holds-bind (value a) f P Q h k = k a h
Holds-bind (failed message) f P Q h k = tt
Holds-bind panicked f P Q h k = tt
Holds-bind starved f P Q h k = absurd h

pub Holds-weaken :
    {A : Type 0} (m : Reply A) (P Q : A → Type 0) → Holds P m → ((a : A) → P a → Q a) → Holds Q m
Holds-weaken (value a) P Q h k = k a h
Holds-weaken (failed message) P Q h k = tt
Holds-weaken panicked P Q h k = tt
Holds-weaken starved P Q h k = absurd h

pub length-skip_ws : (s : Text) → length (skip_ws s) ≤ length s
unfolding skip_ws
length-skip_ws [] = omega arith
length-skip_ws (c ∷ s) = elim (Bool-cases (is_whitespace c)) [
  | inl e ↦ rw e (omega (arith, length-skip_ws s))
  | inr e ↦ rw e (omega arith)
]

pub starts_with-length : (s p : Text) → starts_with s p ≡ true → length p ≤ length s
unfolding starts_with
starts_with-length s [] h = omega arith
starts_with-length [] (_ ∷ _) h = absurd (cc h)
starts_with-length (a ∷ s) (b ∷ p) h = elim (Bool-cases (a == b)) [
  | inl e ↦ omega (arith, starts_with-length s p (subst (λ t. (t && starts_with s p) ≡ true) e h))
  | inr e ↦ absurd (cc (e, h))
]

shift_right-bound : (a b : ℕ) → shift_right a b < 2 ^ 64
shift_right-bound a b = elim (Bool-cases (is_negative a)) [
  | inl e ↦ rw e (omega arith)
  | inr e ↦ rw e (omega arith)
]

remainder-bound : (a b : ℕ) → remainder a b < 2 ^ 64
remainder-bound a b = elim (Bool-cases (is_negative a)) [
  | inl e ↦ rw e (omega arith)
  | inr e ↦ rw e (omega arith)
]

word_of-bound : (n : ℤ) → word_of n < 2 ^ 64
word_of-bound (pos n) = omega arith
word_of-bound (negsuc n) = omega arith

module _ (floats : Floats) where
  abbrev pub InRange : Num floats → Type 0
  InRange (int v) = v < 2 ^ 64
  InRange (float v) = Unit

  int_op-InRange :
      (a b : Num floats) (name : Text) (f : ℕ → ℕ → ℕ)
      → ((x y : ℕ) → f x y < 2 ^ 64)
      → Holds InRange (int_op floats a b name f)
  unfolding int_op
  int_op-InRange (int a) (int b) name f h = h a b
  int_op-InRange (int a) (float b) name f h = tt
  int_op-InRange (float a) b name f h = tt

  numeric_op-InRange :
      (a b : Num floats) (fi : ℕ → ℕ → ℕ) (ff : floats.F64 → floats.F64 → floats.F64)
      → ((x y : ℕ) → fi x y < 2 ^ 64)
      → InRange (numeric_op floats a b fi ff)
  unfolding numeric_op
  numeric_op-InRange (int a) (int b) fi ff h = h a b
  numeric_op-InRange (int a) (float b) fi ff h = tt
  numeric_op-InRange (float a) b fi ff h = tt

  modulus-InRange : (a b : Num floats) → Holds InRange (modulus floats a b)
  unfolding modulus
  modulus-InRange (int a) (int b) = elim (Bool-cases (b == 0)) [
    | inl e ↦ rw e tt
    | inr e ↦ elim (Bool-cases (overflows a b)) [
      | inl f ↦ rw (e, f) tt
      | inr f ↦ rw (e, f) (remainder-bound a b)
    ]
  ]
  modulus-InRange (int a) (float b) = tt
  modulus-InRange (float a) b = tt

  pub apply-InRange : (op : Operator) (a b : Num floats) → Holds InRange (apply floats op a b)
  unfolding apply
  apply-InRange bit_or a b = int_op-InRange a b _ _ (λ x y. omega arith)
  apply-InRange bit_xor a b = int_op-InRange a b _ _ (λ x y. omega arith)
  apply-InRange bit_and a b = int_op-InRange a b _ _ (λ x y. omega arith)
  apply-InRange shl a b = int_op-InRange a b _ _ (λ x y. omega arith)
  apply-InRange shr a b = int_op-InRange a b _ _ shift_right-bound
  apply-InRange plus a b = numeric_op-InRange a b _ _ (λ x y. omega arith)
  apply-InRange minus a b = numeric_op-InRange a b _ _ (λ x y. omega arith)
  apply-InRange times a b = numeric_op-InRange a b _ _ (λ x y. omega arith)
  apply-InRange divided a b = tt
  apply-InRange modulo a b = modulus-InRange a b

  pub negate-InRange : (n : Num floats) → InRange (negate floats n)
  unfolding negate
  negate-InRange (int v) = omega arith
  negate-InRange (float v) = tt

  pub complement-InRange : (n : Num floats) → Holds InRange (complement floats n)
  unfolding complement
  complement-InRange (int v) = omega arith
  complement-InRange (float v) = tt

  int_of-InRange : (o : Option ℤ) (buf : Text) → Holds InRange (int_of floats o buf)
  int_of-InRange none buf = tt
  int_of-InRange (some n) buf = word_of-bound n

  float_of-InRange :
      (o : Option floats.F64) (message : Text) → Holds InRange (float_of floats o message)
  float_of-InRange none message = tt
  float_of-InRange (some f) message = tt

  pub variable_value-InRange :
      (name : Text) (o : Option Text) → Holds InRange (variable_value floats name o)
  unfolding variable_value
  variable_value-InRange name none = tt
  variable_value-InRange name (some held) = elim (Option-cases (parse_i64 held)) [
    | inl e ↦ rw e (float_of-InRange (floats.parse held) (not_a_number floats name held))
    | inr (n, e) ↦ rw e (word_of-bound n)
  ]

  -- The characters of a number and of a name are read from the text.
  number_text-length :
      (is_float : Bool) (s : Text) → length ((number_text floats is_float s).0).1 ≤ length s
  unfolding number_text
  number_text-length is_float [] = omega arith
  number_text-length is_float (c ∷ s) = elim (Bool-cases (is_digit c)) [
    | inl e ↦ rw (number_text, e) (omega (arith, number_text-length is_float s))
    | inr e ↦ elim (Bool-cases (c == 46 && not is_float)) [
      | inl f ↦ rw (number_text, e, f) (omega (arith, number_text-length true s))
      | inr f ↦ rw (number_text, e, f) (omega arith)
    ]
  ]

  pub number_text-first :
      (c : ℕ) (s : Text)
      → (is_digit c || c == 46) ≡ true
      → length ((number_text floats false (c ∷ s)).0).1 < length (c ∷ s)
  unfolding number_text
  number_text-first c s h = elim (Bool-cases (is_digit c)) [
    | inl e ↦ rw (number_text, e) (omega (arith, number_text-length false s))
    | inr e ↦
        let point : (c == 46) ≡ true = subst (λ b. (b || c == 46) ≡ true) e h in
        rw (number_text, e, point) (omega (arith, number_text-length true s))
  ]

  name_text-length : (s : Text) → length (name_text floats s).1 ≤ length s
  unfolding name_text
  name_text-length [] = omega arith
  name_text-length (c ∷ s) =
      elim (Bool-cases ((floats.is_alphabetic c || floats.is_numeric c) || c == 95)) [
        | inl e ↦ rw (name_text, e) (omega (arith, name_text-length s))
        | inr e ↦ rw (name_text, e) (omega arith)
      ]

  opens_name :
      (c : ℕ)
      → (floats.is_alphabetic c || c == 95) ≡ true
      → ((floats.is_alphabetic c || floats.is_numeric c) || c == 95) ≡ true
  opens_name c h = elim (Bool-cases (floats.is_alphabetic c)) [
    | inl e ↦ rw e refl
    | inr e ↦
        let line : (c == 95) ≡ true = subst (λ b. (b || c == 95) ≡ true) e h in
        elim (Bool-cases (floats.is_numeric c)) [
          | inl f ↦ rw (e, f) refl
          | inr f ↦ rw (e, f, line) refl
        ]
  ]

  pub name_text-first :
      (c : ℕ) (s : Text)
      → (floats.is_alphabetic c || c == 95) ≡ true
      → length (name_text floats (c ∷ s)).1 < length (c ∷ s)
  unfolding name_text
  name_text-first c s h =
      let inside : ((floats.is_alphabetic c || floats.is_numeric c) || c == 95) ≡ true =
        opens_name c h in
      rw (name_text, inside) (omega (arith, name_text-length s))

  pub number-InRange :
      (is_float : Bool) (buf : Text)
      → Holds InRange (
          if is_float
          then float_of floats (floats.parse buf) (invalid_number floats buf)
          else int_of floats (parse_i64 buf) buf)
  number-InRange true buf = float_of-InRange (floats.parse buf) (invalid_number floats buf)
  number-InRange false buf = int_of-InRange (parse_i64 buf) buf
