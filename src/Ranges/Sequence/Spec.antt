-- ===== src/Ranges/Sequence/Spec.antt =====
-- The loop down of `numeric_sequence` in src/ranges.rs, and the whole function.
use ion_win.Base.{
  ℕ, zero, suc, ◌+◌, ◌*◌, ◌^◌, ◌≤◌, ◌<◌, ◌≡◌, refl, ap, ◌↔◌, inl, inr, Bool, true, false, none,
  List, [], ◌∷◌, arith, if◌then◌else◌, Bool-cases, In, subst,
}
use ion_win.Base.Int.{
  ℤ, pos, negsuc, pos_part, neg_part, ◌+ℤ◌, ◌-ℤ◌, ◌≤ℤ◌, ◌<ℤ◌, leb_ℤ, wrap_i64, i64_max, int_laws,
}
use ion_win.Ranges.Sequence.{test_down, count_up, count_down, max_one, numeric_sequence}
use ion_win.Ranges.Sequence.Members.{Produces, Up, count_up-Produces, wrap_i64-range}

-- On the near side of the end, going down.
abbrev pub FarFrom : Bool → ℤ → ℤ → Type 0
FarFrom true end z = end ≤ℤ z
FarFrom false end z = end <ℤ z

abbrev pub Down : ℤ → ℕ → ℤ → Bool → ℤ → Type 0
Down i d end inclusive z = (j : ℕ) × (i ≡ z +ℤ pos (j * d)) × FarFrom inclusive end z

FarFrom-test :
    (inclusive : Bool) (z end : ℤ) → test_down inclusive z end ≡ true ↔ FarFrom inclusive end z
FarFrom-test true z end = (λ h. ground (arith, h), λ h. ground (arith, h))
FarFrom-test false z end = (λ h. ground (arith, h), λ h. ground (arith, h))

FarFrom-trans :
    (inclusive : Bool) (z y end : ℤ) → z ≤ℤ y → FarFrom inclusive end z → FarFrom inclusive end y
FarFrom-trans true z y end h k = omega arith
FarFrom-trans false z y end h k = omega arith

FarFrom-le : (inclusive : Bool) (z end : ℤ) → FarFrom inclusive end z → end ≤ℤ z
FarFrom-le true z end h = h
FarFrom-le false z end h = omega arith

down-range :
    (i end : ℤ) (d : ℕ)
    → pos_part i < 2 ^ 63
    → end ≤ℤ i
    → neg_part end + d ≤ 2 ^ 63 + pos_part end
    → (neg_part (i -ℤ pos d) ≤ 2 ^ 63) × (pos_part (i -ℤ pos d) < 2 ^ 63)
unfolding ◌-ℤ◌
down-range i end d lo below hi = (ground arith, ground arith)

Down-split :
    (i : ℤ) (d : ℕ) (end : ℤ) (inclusive : Bool) (z : ℤ) (xs : List ℤ)
    → ((z : ℤ) → In z xs ↔ Down (i -ℤ pos d) d end inclusive z)
    → (j : ℕ) → i ≡ z +ℤ pos (j * d)
    → FarFrom inclusive end z
    → In z (i ∷ xs)
Down-split i d end inclusive z xs members zero at near =
    inl (omega (int_laws, ap pos_part at, ap neg_part at))
Down-split i d end inclusive z xs members (suc j) at near =
    inr ((members z).1 (j, omega (int_laws, ap pos_part at, ap neg_part at), near))

-- With room for one more step below the end, the loop down takes the progression as far as the end.
pub count_down-Produces :
    (f : ℕ) (i end : ℤ) (d : ℕ) (inclusive : Bool)
    → 0 < d
    → pos_part i < 2 ^ 63
    → neg_part end + d ≤ 2 ^ 63 + pos_part end
    → 0 < f
    → pos_part i + neg_part end + 1 < pos_part end + neg_part i + f
    → Produces (count_down f i end (pos d) inclusive) (Down i d end inclusive)
unfolding count_down
count_down-Produces zero i end d inclusive hd lo hi some_fuel enough = elim some_fuel [ ]
count_down-Produces (suc f) i end d inclusive hd lo hi some_fuel enough =
    elim (Bool-cases (test_down inclusive i end)) [
      | inr stop ↦ (
        [],
        rw stop,
        λ z. (
          λ h. elim h [ ],
          λ (j, at, near).
              let first : z ≤ℤ i = omega (int_laws, ap pos_part at, ap neg_part at) in
              let on : test_down inclusive i end ≡ true =
                (FarFrom-test inclusive i end).1 (FarFrom-trans inclusive z i end first near) in
              absurd (cc),
        ),
      )
      | inl go ↦
          let near : FarFrom inclusive end i = (FarFrom-test inclusive i end).0 go in
          let below : end ≤ℤ i = FarFrom-le inclusive i end near in
          let (low, high) = down-range i end d lo below hi in
          let (xs, e, members) =
            count_down-Produces f (i -ℤ pos d) end d inclusive hd high hi (omega arith)
              (omega int_laws) in
          (
            i ∷ xs,
            rw (go, wrap_i64-range (i -ℤ pos d) low high, e),
            λ z. (
              λ h. elim h [
                | inl here ↦ (
                  0,
                  omega (int_laws, ap pos_part here, ap neg_part here),
                  subst (λ y. FarFrom inclusive end y) here near,
                )
                | inr there ↦
                    let (j, at, near') = (members z).0 there in
                    (suc j, omega (int_laws, ap pos_part at, ap neg_part at), near')
              ],
              λ (j, at, near'). Down-split i d end inclusive z xs members j at near',
            ),
          )
    ]

-- What the sequence from `start` to `end` by `d` holds.
abbrev pub Sequence : ℤ → ℤ → ℕ → Bool → ℤ → Type 0
Sequence start end d inclusive z =
    if leb_ℤ start end then Up start d end inclusive z else Down start d end inclusive z

-- Both bounds are i64 values, and one step past either of them is too.
pub record HasRoom (start end : ℤ) (d : ℕ) : Type 0 where
  pub start_low : neg_part start ≤ 2 ^ 63
  pub start_high : pos_part start < 2 ^ 63
  pub end_low : neg_part end + d ≤ 2 ^ 63 + pos_part end
  pub end_high : pos_part end + d < 2 ^ 63 + neg_part end

-- If the step is positive and stepping over the end stays within i64 (`HasRoom`), then in either
-- direction the loop ends, on fuel above the magnitudes of the two bounds and one more, and
-- produces the numbers of the progression from the start as far as the end.
pub numeric_sequence-Produces :
    (fuel : ℕ) (start end : ℤ) (d : ℕ) (inclusive : Bool)
    → 0 < d
    → HasRoom start end d
    → pos_part start + neg_part start + pos_part end + neg_part end + 1 < fuel
    → Produces (numeric_sequence fuel start end (pos d) inclusive) (Sequence start end d inclusive)
unfolding numeric_sequence
numeric_sequence-Produces fuel start end d inclusive hd room enough =
    elim (Bool-cases (leb_ℤ start end)) [
      | inl up ↦
          rw (up, one)
            (count_up-Produces fuel start end d inclusive hd room.start_low room.end_high
              (omega arith) (omega arith))
      | inr down ↦
          rw (down, one)
            (count_down-Produces fuel start end d inclusive hd room.start_high room.end_low
              (omega arith) (omega arith))
    ]
  where
    one : max_one (pos d) ≡ pos d
    one = ground arith

wrap_i64-le : (z : ℤ) → wrap_i64 z ≤ℤ i64_max
unfolding wrap_i64
wrap_i64-le (pos n) = ground arith
wrap_i64-le (negsuc n) = ground arith

count_up-endless :
    (fuel : ℕ) (i : ℤ) (d : ℕ)
    → i ≤ℤ i64_max
    → d < 2 ^ 63
    → count_up fuel i i64_max (pos d) true ≡ none
unfolding count_up
count_up-endless zero i d below hd = refl
count_up-endless (suc fuel) i d below hd =
    let on : leb_ℤ i i64_max ≡ true = ground arith in
    rw (on, count_up-endless fuel (wrap_i64 (i +ℤ pos d)) d (wrap_i64-le (i +ℤ pos d)) hd)

-- The loop up to the largest i64, that end included, never ends, from any start and with any
-- positive step that is an i64: no amount of fuel is enough.
pub numeric_sequence_endless :
    (fuel : ℕ) (start : ℤ) (d : ℕ)
    → 0 < d
    → d < 2 ^ 63
    → start ≤ℤ i64_max
    → numeric_sequence fuel start i64_max (pos d) true ≡ none
unfolding numeric_sequence
numeric_sequence_endless fuel start d hd hm below =
    let up : leb_ℤ start i64_max ≡ true = ground arith in
    let one : max_one (pos d) ≡ pos d = ground arith in
    rw (up, one) (count_up-endless fuel start d below hm)
