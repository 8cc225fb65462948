-- ===== src/Ranges/Slice/Spec.antt =====
-- What `slice_indices` of src/ranges.rs selects, in terms of the fields of the slice alone.
use ion_win.Base.{
  ℕ, zero, suc, ◌+◌, ◌*◌, ◌^◌, ◌≤◌, ◌<◌, ◌≡◌, refl, ap, inl, inr, Bool, true, false, Option, none,
  some, [], arith, ltb, ◌==◌, Bool-cases,
}
use ion_win.Base.Int.{ℤ, pos, negsuc, pos_part, neg_part, ◌+ℤ◌, ◌-ℤ◌, ◌≤ℤ◌, ◌<ℤ◌, wrap_i64}
use ion_win.Ranges.Slice.{
  Slice, descend, first_up, first_down, last_up, last_down, step_of, slice_indices,
}
use ion_win.Ranges.Slice.Members.{Selects, ascend-Selects}
use ion_win.Ranges.Slice.Descending.{descend-stop, descend-negative, descend-Selects}

-- An optional field that is an i64, and not the smallest one.
abbrev pub AboveMin : Option ℤ → Type 0
AboveMin none = Unit
AboveMin (some z) = (neg_part z < 2 ^ 63) × (pos_part z < 2 ^ 63)

-- An optional field that is an i64, and not the largest one.
abbrev pub BelowMax : Option ℤ → Type 0
BelowMax none = Unit
BelowMax (some z) = (neg_part z ≤ 2 ^ 63) × (pos_part z + 1 < 2 ^ 63)

-- On the near side of an end that counts or does not count itself.
abbrev pub UpTo : Option ℤ → Bool → ℕ → Type 0
UpTo none inclusive k = Unit
UpTo (some e) true k = pos k ≤ℤ e
UpTo (some e) false k = pos k <ℤ e

abbrev pub DownTo : Option ℤ → Bool → ℕ → Type 0
DownTo none inclusive k = Unit
DownTo (some e) true k = e ≤ℤ pos k
DownTo (some e) false k = e <ℤ pos k

-- A start below zero counts as zero.
abbrev pub lower : Option ℤ → ℕ
lower none = 0
lower (some z) = pos_part z

-- A descending slice starts at the last index unless it says otherwise.
abbrev pub upper : ℕ → Option ℤ → ℤ
upper len none = pos len -ℤ pos 1
upper len (some z) = z

abbrev pub Ascending : ℕ → ℕ → Slice → ℕ → Type 0
Ascending len d slice k =
    (j : ℕ) × (k ≡ lower slice.start + j * d) × UpTo slice.end slice.inclusive k × (k < len)

abbrev pub Descending : ℕ → ℕ → Slice → ℕ → Type 0
Descending len d slice k =
    (j : ℕ) × (pos (k + j * d) ≡ upper len slice.start)
    × DownTo slice.end slice.inclusive k
    × (k + j * d < len)

pub first_up-lower : (slice : Slice) → first_up slice ≡ pos (lower slice.start)
unfolding first_up
first_up-lower slice = by_start slice.start
  where
    by_start : (start : Option ℤ) → first_up (record slice { start = start }) ≡ pos (lower start)
    by_start none = refl
    by_start (some (pos n)) = refl
    by_start (some (negsuc n)) = refl

lower-lt : (start : Option ℤ) → AboveMin start → lower start < 2 ^ 63
lower-lt none p = omega arith
lower-lt (some z) p = p.1

last_up_iff :
    (len k : ℕ) (slice : Slice)
    → AboveMin slice.end
    → k < len
    → (pos k ≤ℤ last_up len slice → UpTo slice.end slice.inclusive k)
      × (UpTo slice.end slice.inclusive k → pos k ≤ℤ last_up len slice)
unfolding last_up ◌-ℤ◌ wrap_i64
last_up_iff len k slice = by_end slice.end slice.inclusive
  where
    by_end :
        (end : Option ℤ) (inclusive : Bool)
        → AboveMin end
        → k < len
        → (pos k ≤ℤ last_up len (record slice { end = end; inclusive = inclusive })
            → UpTo end inclusive k)
          × (UpTo end inclusive k
              → pos k ≤ℤ last_up len (record slice { end = end; inclusive = inclusive }))
    by_end none inclusive p h = (λ _. tt, λ _. ground arith)
    by_end (some e) true p h = (λ q. q, λ q. q)
    by_end (some (pos zero)) false p h = (λ q. ground arith, λ q. ground arith)
    by_end (some (pos (suc n))) false p h = (λ q. ground arith, λ q. ground arith)
    by_end (some (negsuc n)) false p h = (λ q. ground arith, λ q. ground arith)

-- With a positive step that is an i64, or none, a start and an end that are not the smallest i64,
-- and a length below 2^63, the selected indices are those of the progression from the start, on
-- the near side of the end and below the length.
pub slice_indices-Ascending :
    (len d : ℕ) (slice : Slice)
    → step_of slice ≡ pos d
    → 0 < d
    → d < 2 ^ 63
    → len < 2 ^ 63
    → AboveMin slice.start
    → AboveMin slice.end
    → Selects (slice_indices len slice) (Ascending len d slice)
unfolding slice_indices
slice_indices-Ascending len d slice step hd hm hl ps pe = elim (Bool-cases (len == 0)) [
  | inl empty ↦ ([], rw empty, λ k. (λ h. elim h [ ], λ (j, at, up, short). absurd (ground arith)))
  | inr some_items ↦
      let nonzero : (d == 0) ≡ false = ground arith in
      let (xs, e, members) =
        ascend-Selects (suc len) (lower slice.start) d (last_up len slice) len hd hm hl
          (lower-lt slice.start ps) (omega arith) (omega arith) in
      (
        xs,
        rw (some_items, slice_indices, step, nonzero, first_up-lower slice) e,
        λ k. (
          λ h.
              let (j, at, up, short) = (members k).0 h in
              (j, at, (last_up_iff len k slice pe short).0 up, short),
          λ (j, at, up, short).
              (members k).1 (j, at, (last_up_iff len k slice pe short).1 up, short),
        ),
      )
]

last_down_iff :
    (k : ℕ) (slice : Slice)
    → BelowMax slice.end
    → (last_down slice ≤ℤ pos k → DownTo slice.end slice.inclusive k)
      × (DownTo slice.end slice.inclusive k → last_down slice ≤ℤ pos k)
unfolding last_down ◌+ℤ◌ wrap_i64
last_down_iff k slice = by_end slice.end slice.inclusive
  where
    by_end :
        (end : Option ℤ) (inclusive : Bool)
        → BelowMax end
        → (last_down (record slice { end = end; inclusive = inclusive }) ≤ℤ pos k
            → DownTo end inclusive k)
          × (DownTo end inclusive k
              → last_down (record slice { end = end; inclusive = inclusive }) ≤ℤ pos k)
    by_end none inclusive p = (λ _. tt, λ _. omega arith)
    by_end (some e) true p = (λ q. q, λ q. q)
    by_end (some (pos n)) false p = (λ q. ground arith, λ q. ground arith)
    by_end (some (negsuc zero)) false p = (λ q. ground arith, λ q. ground arith)
    by_end (some (negsuc (suc n))) false p = (λ q. ground arith, λ q. ground arith)

first_down-upper : (len : ℕ) (slice : Slice) → first_down len slice ≡ upper len slice.start
unfolding first_down
first_down-upper len slice = by_start slice.start
  where
    by_start :
        (start : Option ℤ) → first_down len (record slice { start = start }) ≡ upper len start
    by_start none = refl
    by_start (some z) = refl

pub descend-from :
    (len n : ℕ) (first last : ℤ)
    → n < 2 ^ 63
    → len < 2 ^ 63
    → 0 < len
    → Selects
        (descend (suc len) first (negsuc n) last len)
        (λ k. (j : ℕ) × (pos (k + j * suc n) ≡ first) × (last ≤ℤ pos k) × (k + j * suc n < len))
descend-from len n (negsuc z) last hn hl some_items = (
  [],
  descend-negative (suc len) z (negsuc n) last len (omega arith),
  λ k. (λ h. elim h [ ], λ (j, at, low, short). cc),
)
descend-from len n (pos s) last hn hl some_items = elim (Bool-cases (ltb s len)) [
  | inl inside ↦
      let short : s < len = ground arith in
      let (xs, e, members) = descend-Selects (suc len) s n last len hn hl short (omega arith) in
      (
        xs,
        e,
        λ k. (
          λ h.
              let (j, at, low, _) = (members k).0 h in
              (j, ap pos at, low, omega (arith, at, short)),
          λ (j, at, low, inside'). (members k).1 (j, ground (arith, at), low, short),
        ),
      )
  | inr outside ↦
      let (xs, e, members) =
        descend-stop (suc len) s (suc n) (negsuc n) last len (omega arith) (ground arith) in
      (
        xs,
        e,
        λ k. (
          λ h. let (j, at, low, short) = (members k).0 h in absurd (ground arith),
          λ (j, at, low, inside'). absurd (ground (arith, at)),
        ),
      )
]

-- With a negative step that is an i64, an end that is not the largest i64 and a length below 2^63,
-- the selected indices are those of the progression down from the start, on the near side of the
-- end, and there are none if the start is not an index.
pub slice_indices-Descending :
    (len n : ℕ) (slice : Slice)
    → step_of slice ≡ negsuc n
    → n < 2 ^ 63
    → len < 2 ^ 63
    → BelowMax slice.end
    → Selects (slice_indices len slice) (Descending len (suc n) slice)
unfolding slice_indices
slice_indices-Descending len n slice step hn hl pe = elim (Bool-cases (len == 0)) [
  | inl empty ↦ ([], rw empty, λ k. (λ h. elim h [ ], λ (j, at, low, short). absurd (ground arith)))
  | inr some_items ↦
      let (xs, e, members) =
        descend-from len n (upper len slice.start) (last_down slice) hn hl (ground arith) in
      (
        xs,
        rw (some_items, slice_indices, step, first_down-upper len slice) e,
        λ k. (
          λ h.
              let (j, at, low, short) = (members k).0 h in
              (j, at, (last_down_iff k slice pe).0 low, short),
          λ (j, at, low, short). (members k).1 (j, at, (last_down_iff k slice pe).1 low, short),
        ),
      )
]
