-- ===== src/Ranges/Index/Fields.antt =====
-- The numbers that `parse_slice` of src/ranges.rs reads are i64 values.
use ion_win.Base.{
  ℕ, zero, suc, ◌^◌, inl, inr, Option, none, some, [], ◌∷◌, Text, ◌==◌, ltb, Bool-cases, arith,
}
use ion_win.Base.Int.{ℤ, IsI64}
use ion_win.Base.Parse.{parse_i64, magnitude, positive, negative}
use ion_win.Ranges.Index.{parse_bound, parse_step}

-- An optional field that is an i64.
abbrev pub IsField : Option ℤ → Type 0
IsField none = Unit
IsField (some z) = IsI64 z

positive-IsField : (n : Option ℕ) → IsField (positive n)
positive-IsField none = tt
positive-IsField (some n) = elim (Bool-cases (ltb n (2 ^ 63))) [
  | inl fits ↦ rw fits (record { low = omega arith; high = ground arith })
  | inr big ↦ rw big tt
]

negative-IsField : (n : Option ℕ) → IsField (negative n)
negative-IsField none = tt
negative-IsField (some zero) = record { low = omega arith; high = omega arith }
negative-IsField (some (suc n)) = elim (Bool-cases (ltb n (2 ^ 63))) [
  | inl fits ↦ rw fits (record { low = ground arith; high = omega arith })
  | inr big ↦ rw big tt
]

parse_i64-IsField : (s : Text) → IsField (parse_i64 s)
unfolding parse_i64
parse_i64-IsField [] = tt
parse_i64-IsField (c ∷ s) = elim (Bool-cases (c == 43)) [
  | inl plus ↦ rw (plus, parse_i64) (positive-IsField (magnitude s))
  | inr e ↦ elim (Bool-cases (c == 45)) [
    | inl minus ↦ rw (e, minus, parse_i64) (negative-IsField (magnitude s))
    | inr unsigned ↦ rw (e, unsigned, parse_i64) (positive-IsField (magnitude (c ∷ s)))
  ]
]

pub parse_bound-IsField : (s : Text) → IsField (parse_bound s)
unfolding parse_bound
parse_bound-IsField [] = tt
parse_bound-IsField (c ∷ s) = parse_i64-IsField (c ∷ s)

pub parse_step-IsField : (step comma_step : Option Text) → IsField (parse_step step comma_step)
unfolding parse_step
parse_step-IsField none none = tt
parse_step-IsField none (some []) = tt
parse_step-IsField none (some (c ∷ s)) = parse_i64-IsField (c ∷ s)
parse_step-IsField (some []) none = tt
parse_step-IsField (some []) (some []) = tt
parse_step-IsField (some []) (some (c ∷ s)) = parse_i64-IsField (c ∷ s)
parse_step-IsField (some (d ∷ t)) comma_step = parse_i64-IsField (d ∷ t)
