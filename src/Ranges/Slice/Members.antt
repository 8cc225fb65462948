-- ===== src/Ranges/Slice/Members.antt =====
-- Which indices `slice_indices` of src/ranges.rs selects: the loops end, stay below the length, and
-- produce the arithmetic progression that the slice describes.
use ion_win.Base.{
  ℕ, zero, suc, ◌+◌, ◌*◌, ◌^◌, ◌≤◌, ◌<◌, ◌≡◌, inl, inr, ◌↔◌, true, false, ◌&&◌, Option, some, List,
  [], ◌∷◌, arith, ltb, Bool-cases, In, ltb→lt,
}
use mathlib.Core.Option
use ion_win.Base.Int.{ℤ, pos, ◌+ℤ◌, leb_ℤ, ◌≤ℤ◌, wrap_i64, as_usize}
use ion_win.Ranges.Slice.{ascend}

-- The loop ended, and produced exactly the indices that satisfy `P`.
abbrev pub Selects : Option (List ℕ) → (ℕ → Type 0) → Type 0
Selects o P = (xs : List ℕ) × (o ≡ some xs) × ((k : ℕ) → In k xs ↔ P k)

-- The progression from `s` by `d` up to `last`, below `len`.
abbrev pub Upward : ℕ → ℕ → ℤ → ℕ → ℕ → Type 0
Upward s d last len k = (j : ℕ) × (k ≡ s + j * d) × (pos k ≤ℤ last) × (k < len)

ascend-stop :
    (f s d : ℕ) (last : ℤ) (len : ℕ)
    → (leb_ℤ (pos s) last && ltb s len) ≡ false
    → Selects (ascend (suc f) (pos s) (pos d) last len) (Upward s d last len)
unfolding ascend
ascend-stop f s d last len stop =
    ([], rw stop, λ k. (λ h. elim h [ ], λ (j, e, below, short). absurd (ground (arith))))

-- One more index in front of the progression.
Selects-cons :
    (s d : ℕ) (last : ℤ) (len : ℕ) (rest : Option (List ℕ))
    → pos s ≤ℤ last
    → s < len
    → Selects rest (Upward (s + d) d last len)
    → Selects (Option.map (s ∷◌) rest) (Upward s d last len)
Selects-cons s d last len rest below short (xs, e, members) = (s ∷ xs, rw e, λ k. (to k, from k))
  where
    to : (k : ℕ) → In k (s ∷ xs) → Upward s d last len k
    to k (inl here) = (0, omega arith, rw here at below, omega arith)
    to k (inr there) =
        let (j, at, low, high) = (members k).0 there in (suc j, omega (arith, at), low, high)

    from : (k : ℕ) → Upward s d last len k → In k (s ∷ xs)
    from k (zero, at, low, high) = inl (omega (arith, at))
    from k (suc j, at, low, high) = inr ((members k).1 (j, omega (arith, at), low, high))

pos-+ℤ-pos : (s d : ℕ) → pos s +ℤ pos d ≡ pos (s + d)
unfolding ◌+ℤ◌
pos-+ℤ-pos s d = ground arith

wrap_i64-small : (n : ℕ) → n < 2 ^ 63 → wrap_i64 (pos n) ≡ pos n
unfolding wrap_i64
wrap_i64-small n h = ground arith

-- Past the largest i64 the sum wraps to a negative index, whose `as usize` is beyond any length.
ascend-wrapped :
    (f s d : ℕ) (last : ℤ) (len : ℕ)
    → 0 < f
    → len < 2 ^ 63
    → 2 ^ 63 ≤ s
    → s < 2 ^ 64
    → Selects (ascend f (wrap_i64 (pos s)) (pos d) last len) (Upward s d last len)
unfolding ascend wrap_i64 as_usize
ascend-wrapped zero s d last len some_fuel hl big room = elim some_fuel [ ]
ascend-wrapped (suc f) s d last len some_fuel hl big room =
    ([], ground arith, λ k. (λ h. elim h [ ], λ (j, e, below, short). absurd (ground arith)))

ascend-go :
    (f s d : ℕ) (last : ℤ) (len : ℕ)
    → (leb_ℤ (pos s) last && ltb s len) ≡ true
    → Selects (ascend f (wrap_i64 (pos (s + d))) (pos d) last len) (Upward (s + d) d last len)
    → Selects (ascend (suc f) (pos s) (pos d) last len) (Upward s d last len)
unfolding ascend as_usize
ascend-go f s d last len go rest =
    rw (go, pos-+ℤ-pos s d)
      (Selects-cons s d last len (ascend f (wrap_i64 (pos (s + d))) (pos d) last len) (ground arith)
        (ground arith) rest)

pub ascend-Selects :
    (f s d : ℕ) (last : ℤ) (len : ℕ)
    → 0 < d
    → d < 2 ^ 63
    → len < 2 ^ 63
    → s < 2 ^ 63
    → 0 < f
    → len < s + f
    → Selects (ascend f (pos s) (pos d) last len) (Upward s d last len)
ascend-Selects zero s d last len hd hm hl hs some_fuel enough = elim some_fuel [ ]
ascend-Selects (suc f) s d last len hd hm hl hs some_fuel enough =
    elim (Bool-cases (leb_ℤ (pos s) last && ltb s len)) [
      | inr stop ↦ ascend-stop f s d last len stop
      | inl go ↦
          let short : s < len = ground arith in
          elim (Bool-cases (ltb (s + d) (2 ^ 63))) [
            | inl small ↦ ascend-go f s d last len go (
                rw (wrap_i64-small (s + d) (ltb→lt _ _ small)) (
                  ascend-Selects f (s + d) d last len hd hm hl (ltb→lt _ _ small) (omega arith)
                    (omega arith)))
            | inr big ↦
                ascend-go f s d last len go (
                  ascend-wrapped f (s + d) d last len (omega arith) hl (ground arith) (omega arith))
          ]
    ]
