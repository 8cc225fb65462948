-- ===== src/Ranges/Index/Safety.antt =====
-- That no specification makes `apply_array_slice` of src/ranges.rs run forever or read an element
-- that is not there.
use ion_win.Base.{
  ℕ, zero, suc, ◌^◌, ◌<◌, ◌≡◌, refl, inl, inr, false, ◌||◌, Option, none, some, List, [], ◌∷◌, Text,
  Result, ok, err, ◌==◌, leb, length, get_elem?, In, Bool-cases, Option-cases, ◌⊎◌, arith,
}
use ion_win.Base.Int.{ℤ, pos, negsuc, IsI64, as_usize, ltb_ℤ}
use ion_win.Ranges.Slice.{
  Slice, normalize_index, slice_indices, step_of, first_down, last_up, last_down,
}
use ion_win.Ranges.Slice.Members.{Selects, ascend-Selects}
use ion_win.Ranges.Slice.Spec.{lower, first_up-lower, descend-from}
use ion_win.Base.Chars.{trim}
use ion_win.Base.Parse.{parse_i64}
use ion_win.Ranges.Index.{
  start_of, slice_of, Tail, parse_tail, split_dots, parse_slice, parse_index_spec, pick, pick_slice,
  pick_index, apply_array_slice,
}
use ion_win.Ranges.Index.Fields.{IsField, parse_bound-IsField, parse_step-IsField}

abbrev Below : ℕ → Option (List ℕ) → Type 0
Below len o = (xs : List ℕ) × (o ≡ some xs) × ((k : ℕ) → In k xs → k < len)

Below-Selects :
    (len : ℕ) (o : Option (List ℕ)) (P : ℕ → Type 0)
    → Selects o P
    → ((k : ℕ) → P k → k < len)
    → Below len o
Below-Selects len o P (xs, e, members) short = (xs, e, λ k h. short k ((members k).0 h))

lower-field : (start : Option ℤ) → IsField start → lower start < 2 ^ 63
lower-field none v = omega arith
lower-field (some z) v = omega (arith, v.high)

-- Whatever the bounds are, the loops end and select indices only.
slice_indices-Below :
    (len : ℕ) (slice : Slice)
    → len < 2 ^ 63
    → IsField slice.start
    → IsField slice.step
    → Below len (slice_indices len slice)
unfolding slice_indices
slice_indices-Below len slice short start step = elim (Bool-cases (len == 0)) [
  | inl empty ↦ rw (empty, slice_indices) ([], refl, λ k h. elim h [ ])
  | inr some_items ↦ by_step some_items (step_of slice) refl (step-field slice.step step)
]
  where
    step-field : (s : Option ℤ) → IsField s → IsI64 (step_of (record slice { step = s }))
    step-field none v = record { low = omega arith; high = omega arith }
    step-field (some z) v = v

    by_step :
        (len == 0) ≡ false
        → (z : ℤ) → step_of slice ≡ z
        → IsI64 z
        → Below len (slice_indices len slice)
    by_step some_items (pos d) at v = elim (Bool-cases (d == 0)) [
      | inl still ↦ rw (some_items, at, still, slice_indices) ([], refl, λ k h. elim h [ ])
      | inr moves ↦
          rw (some_items, at, moves, first_up-lower slice, slice_indices)
            (Below-Selects len _ _
              (ascend-Selects (suc len) (lower slice.start) d (last_up len slice) len
                (ground (arith, moves)) (omega (arith, v.high)) short
                (lower-field slice.start start) (omega arith) (omega arith))
              (λ k (j, at, low, high). high))
    ]
    by_step some_items (negsuc n) at v =
        rw (some_items, at, slice_indices)
          (Below-Selects len _ _
            (descend-from len n (first_down len slice) (last_down slice) (omega (arith, v.low))
              short (ground (arith, some_items)))
            (λ k (j, at, low, high). omega (arith, high)))

get_elem?-Below : (xs : List Text) (i : ℕ) → i < length xs → (x : Text) × (get_elem? xs i ≡ some x)
get_elem?-Below [] i h = absurd (omega (arith, h))
get_elem?-Below (x ∷ xs) zero h = (x, refl)
get_elem?-Below (x ∷ xs) (suc i) h = get_elem?-Below xs i (omega (arith, h))

pick-Below :
    (items : List Text) (is : List ℕ)
    → ((k : ℕ) → In k is → k < length items)
    → (out : List Text) × (pick items is ≡ ok out)
unfolding pick
pick-Below items [] h = ([], refl)
pick-Below items (i ∷ is) h =
    let (x, found) = get_elem?-Below items i (h i (inl refl)) in
    let (rest, picked) = pick-Below items is (λ k at. h k (inr at)) in
    (x ∷ rest, rw (found, pick, picked) refl)

normalize_index-Below : (i : ℤ) (len k : ℕ) → normalize_index i len ≡ some k → k < len
unfolding normalize_index
normalize_index-Below i len k h = elim (Bool-cases (ltb_ℤ i (pos 0) || leb len (as_usize i))) [
  | inl outside ↦ absurd (cc (outside, h))
  | inr inside ↦
      let same : as_usize i ≡ k = cc (inside, h) in
      let short : as_usize i < len = ground (arith, inside) in omega (arith, same, short)
]

abbrev IsAnswer : Result Text (List Text) → Type 0
IsAnswer r = ((out : List Text) × (r ≡ ok out)) ⊎ ((message : Text) × (r ≡ err message))

pick_index-IsAnswer : (items : List Text) (i : ℤ) → IsAnswer (pick_index items i)
unfolding pick_index
pick_index-IsAnswer items i = elim (Option-cases (normalize_index i (length items))) [
  | inl outside ↦ rw (outside, pick_index) (inr (_, refl))
  | inr (k, inside) ↦
      let (out, picked) = pick-Below items (k ∷ []) (λ j at. elim at [
        | inl here ↦ omega (arith, here, normalize_index-Below i (length items) k inside)
        | inr nowhere ↦ absurd nowhere
      ]) in
      inl (out, rw (inside, pick_index) picked)
]

slice_of-ok :
    (items : List Text) (left : Text) (tail : Tail)
    → length items < 2 ^ 63
    → (out : List Text) × (pick_slice items (slice_indices (length items) (slice_of left tail))
        ≡ ok out)
unfolding pick_slice slice_of
slice_of-ok items left tail short =
    let (xs, e, below) =
      slice_indices-Below (length items) (slice_of left tail) short
        (parse_bound-IsField (start_of left).0)
        (parse_step-IsField tail.step_str (start_of left).1) in
    let (out, picked) = pick-Below items xs below in (out, rw (e, pick_slice) picked)

-- On an array that a vector can hold, any specification is answered, with elements or with an
-- error: the loops end and no element is read out of bounds. A range is never an error.
pub apply_array_slice_lem :
    (items : List Text) (spec : Text)
    → length items < 2 ^ 63
    → (((out : List Text) × (apply_array_slice items spec ≡ ok out))
        ⊎ ((message : Text) × (apply_array_slice items spec ≡ err message)))
      × ((parts : Text × Text)
          → split_dots spec ≡ some parts
          → (out : List Text) × (apply_array_slice items spec ≡ ok out))
unfolding apply_array_slice parse_index_spec parse_slice
apply_array_slice_lem items spec short = (
  elim (Option-cases (split_dots spec)) [
    | inl plain ↦ elim (Option-cases (parse_i64 (trim spec))) [
      | inl unread ↦
          rw (plain, unread, apply_array_slice, parse_index_spec, parse_slice) (inr (_, refl))
      | inr (i, read) ↦
          rw (plain, read, apply_array_slice, parse_index_spec, parse_slice)
            (pick_index-IsAnswer items i)
    ]
    | inr (parts, found) ↦ inl (ranged parts found)
  ],
  ranged,
)
  where
    ranged :
        (parts : Text × Text)
        → split_dots spec ≡ some parts
        → (out : List Text) × (apply_array_slice items spec ≡ ok out)
    ranged parts found =
        rw (found, apply_array_slice, parse_index_spec, parse_slice)
          (slice_of-ok items parts.0 (parse_tail parts.1) short)
