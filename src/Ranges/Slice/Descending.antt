-- ===== src/Ranges/Slice/Descending.antt =====
-- The descending loop of `slice_indices` in src/ranges.rs: it ends, and selects the progression
-- from its first index down.
use ion_win.Base.{
  ℕ, zero, suc, ◌+◌, ◌-◌, ◌*◌, ◌^◌, ◌≤◌, ◌<◌, ◌≡◌, inl, inr, true, false, ◌&&◌, Option, some, List,
  [], ◌∷◌, arith, ltb, leb, if◌then◌else◌, In, Bool-cases,
}
use mathlib.Core.Option
use ion_win.Base.Int.{ℤ, pos, negsuc, ◌+ℤ◌, leb_ℤ, ◌≤ℤ◌, wrap_i64, as_usize}
use ion_win.Ranges.Slice.{descend}
use ion_win.Ranges.Slice.Members.{Selects}

-- The progression from `s` down by `d` to `last`; nothing if `s` is not an index.
abbrev pub Downward : ℕ → ℕ → ℤ → ℕ → ℕ → Type 0
Downward s d last len k = (j : ℕ) × (k + j * d ≡ s) × (last ≤ℤ pos k) × (s < len)

pub descend-stop :
    (f s d : ℕ) (step last : ℤ) (len : ℕ)
    → 0 < f
    → (leb_ℤ last (pos s) && ltb s len) ≡ false
    → Selects (descend f (pos s) step last len) (Downward s d last len)
unfolding descend as_usize
descend-stop zero s d step last len some_fuel stop = elim some_fuel [ ]
descend-stop (suc f) s d step last len some_fuel stop =
    ([], ground arith, λ k. (λ h. elim h [ ], λ (j, e, low, short). absurd (ground arith)))

pub descend-negative :
    (f n : ℕ) (step last : ℤ) (len : ℕ) → 0 < f → descend f (negsuc n) step last len ≡ some []
unfolding descend
descend-negative zero n step last len some_fuel = elim some_fuel [ ]
descend-negative (suc f) n step last len some_fuel = ground arith

Selects-cons :
    (s d : ℕ) (last : ℤ) (len : ℕ) (rest : Option (List ℕ))
    → last ≤ℤ pos s
    → s < len
    → Selects rest (λ k. (j : ℕ) × (k + suc j * d ≡ s) × (last ≤ℤ pos k))
    → Selects (Option.map (s ∷◌) rest) (Downward s d last len)
Selects-cons s d last len rest above short (xs, e, members) = (s ∷ xs, rw e, λ k. (to k, from k))
  where
    to : (k : ℕ) → In k (s ∷ xs) → Downward s d last len k
    to k (inl here) = (0, omega arith, rw here at above, short)
    to k (inr there) = let (j, at, low) = (members k).0 there in (suc j, at, low, short)

    from : (k : ℕ) → Downward s d last len k → In k (s ∷ xs)
    from k (zero, at, low, high) = inl (omega (arith, at))
    from k (suc j, at, low, high) = inr ((members k).1 (j, at, low))

down_step :
    (s n : ℕ)
    → n < 2 ^ 63
    → s < 2 ^ 63
    → wrap_i64 (pos s +ℤ negsuc n)
      ≡ (if leb (suc n) s then pos (s - suc n) else negsuc (suc n - s - 1))
unfolding wrap_i64 ◌+ℤ◌
down_step s n hn hs = ground arith

-- What comes after the first index.
abbrev Rest : ℕ → ℕ → ℤ → ℕ → Type 0
Rest s d last k = (j : ℕ) × (k + suc j * d ≡ s) × (last ≤ℤ pos k)

descend-go :
    (f s n : ℕ) (last : ℤ) (len : ℕ)
    → n < 2 ^ 63
    → s < len
    → s < 2 ^ 63
    → leb_ℤ last (pos s) ≡ true
    → Selects
        (descend f
          (if leb (suc n) s then pos (s - suc n) else negsuc (suc n - s - 1))
          (negsuc n)
          last
          len)
        (Rest s (suc n) last)
    → Selects (descend (suc f) (pos s) (negsuc n) last len) (Downward s (suc n) last len)
unfolding descend as_usize
descend-go f s n last len hn short hs above rest =
    let test : (leb_ℤ last (pos s) && (leb_ℤ (pos 0) (pos s) && ltb s len)) ≡ true = ground arith in
    rw (test, down_step s n hn hs) (Selects-cons s (suc n) last len _ (ground arith) short rest)

-- From an index in range the loop takes every index of the progression.
pub descend-Selects :
    (f s n : ℕ) (last : ℤ) (len : ℕ)
    → n < 2 ^ 63
    → len < 2 ^ 63
    → s < len
    → suc s < f
    → Selects (descend f (pos s) (negsuc n) last len) (Downward s (suc n) last len)
descend-Selects zero s n last len hn hl hs enough = elim enough [ ]
descend-Selects (suc f) s n last len hn hl hs enough = elim (Bool-cases (leb_ℤ last (pos s))) [
  | inr stop ↦ descend-stop (suc f) s (suc n) (negsuc n) last len (omega arith) (ground arith)
  | inl above ↦
      descend-go f s n last len hn hs (omega arith) above (elim (Bool-cases (leb (suc n) s)) [
        | inl more ↦
            let fits : suc n ≤ s = ground arith in
            let (xs, e, members) =
              descend-Selects f (s - suc n) n last len hn hl (omega arith) (omega arith) in
            (
              xs,
              rw more e,
              λ k. (
                λ h. let (j, at, low, _) = (members k).0 h in (j, omega (arith, at, fits), low),
                λ (j, at, low). (members k).1 (j, omega (arith, at, fits), low, omega arith),
              ),
            )
        | inr over ↦
            let past : s < suc n = ground arith in
            (
              [],
              rw over (descend-negative f _ (negsuc n) last len (omega arith)),
              λ k. (λ h. elim h [ ], λ (j, at, low). absurd (omega (arith, at, past))),
            )
      ])
]
