-- ===== src/Ranges/Sequence/Members.antt =====
-- What `numeric_sequence` of src/ranges.rs produces, and when it does not end.
use ion_win.Base.{
  ℕ, zero, suc, ◌+◌, ◌*◌, ◌^◌, ◌≤◌, ◌<◌, ◌≡◌, ap, ◌↔◌, inl, inr, Bool, true, false, Option, some,
  List, [], ◌∷◌, arith, Bool-cases, In, subst,
}
use ion_win.Base.Int.{ℤ, pos, negsuc, pos_part, neg_part, ◌+ℤ◌, ◌≤ℤ◌, ◌<ℤ◌, wrap_i64, int_laws}
use ion_win.Ranges.Sequence.{test_up, count_up}

-- On the near side of the end, going up or going down.
abbrev pub Near : Bool → ℤ → ℤ → Type 0
Near true z end = z ≤ℤ end
Near false z end = z <ℤ end

abbrev pub Produces : Option (List ℤ) → (ℤ → Type 0) → Type 0
Produces o P = (xs : List ℤ) × (o ≡ some xs) × ((z : ℤ) → In z xs ↔ P z)

abbrev pub Up : ℤ → ℕ → ℤ → Bool → ℤ → Type 0
Up i d end inclusive z = (j : ℕ) × (z ≡ i +ℤ pos (j * d)) × Near inclusive z end

Near-test : (inclusive : Bool) (z end : ℤ) → test_up inclusive z end ≡ true ↔ Near inclusive z end
Near-test true z end = (λ h. ground (arith, h), λ h. ground (arith, h))
Near-test false z end = (λ h. ground (arith, h), λ h. ground (arith, h))

Near-trans : (inclusive : Bool) (y z end : ℤ) → y ≤ℤ z → Near inclusive z end → Near inclusive y end
Near-trans true y z end h k = omega arith
Near-trans false y z end h k = omega arith

Near-le : (inclusive : Bool) (z end : ℤ) → Near inclusive z end → z ≤ℤ end
Near-le true z end h = h
Near-le false z end h = omega arith

pub wrap_i64-range : (z : ℤ) → neg_part z ≤ 2 ^ 63 → pos_part z < 2 ^ 63 → wrap_i64 z ≡ z
unfolding wrap_i64
wrap_i64-range (pos n) h k = ground arith
wrap_i64-range (negsuc n) h k = ground arith

up-range :
    (i end : ℤ) (d : ℕ)
    → neg_part i ≤ 2 ^ 63
    → i ≤ℤ end
    → pos_part end + d < 2 ^ 63 + neg_part end
    → (neg_part (i +ℤ pos d) ≤ 2 ^ 63) × (pos_part (i +ℤ pos d) < 2 ^ 63)
unfolding ◌+ℤ◌
up-range i end d lo below hi = (ground arith, ground arith)

Up-split :
    (i : ℤ) (d : ℕ) (end : ℤ) (inclusive : Bool) (z : ℤ) (xs : List ℤ)
    → ((z : ℤ) → In z xs ↔ Up (i +ℤ pos d) d end inclusive z)
    → (j : ℕ) → z ≡ i +ℤ pos (j * d)
    → Near inclusive z end
    → In z (i ∷ xs)
Up-split i d end inclusive z xs members zero at near =
    inl (omega (int_laws, ap pos_part at, ap neg_part at))
Up-split i d end inclusive z xs members (suc j) at near =
    inr ((members z).1 (j, omega (int_laws, ap pos_part at, ap neg_part at), near))

-- With room for one more step above the end, the loop up takes the progression as far as the end.
pub count_up-Produces :
    (f : ℕ) (i end : ℤ) (d : ℕ) (inclusive : Bool)
    → 0 < d
    → neg_part i ≤ 2 ^ 63
    → pos_part end + d < 2 ^ 63 + neg_part end
    → 0 < f
    → pos_part end + neg_part i + 1 < pos_part i + neg_part end + f
    → Produces (count_up f i end (pos d) inclusive) (Up i d end inclusive)
unfolding count_up
count_up-Produces zero i end d inclusive hd lo hi some_fuel enough = elim some_fuel [ ]
count_up-Produces (suc f) i end d inclusive hd lo hi some_fuel enough =
    elim (Bool-cases (test_up inclusive i end)) [
      | inr stop ↦ (
        [],
        rw stop,
        λ z. (
          λ h. elim h [ ],
          λ (j, at, near).
              let first : i ≤ℤ z = omega (int_laws, ap pos_part at, ap neg_part at) in
              let on : test_up inclusive i end ≡ true =
                (Near-test inclusive i end).1 (Near-trans inclusive i z end first near) in
              absurd (cc),
        ),
      )
      | inl go ↦
          let near : Near inclusive i end = (Near-test inclusive i end).0 go in
          let below : i ≤ℤ end = Near-le inclusive i end near in
          let (low, high) = up-range i end d lo below hi in
          let (xs, e, members) =
            count_up-Produces f (i +ℤ pos d) end d inclusive hd low hi (omega arith)
              (omega int_laws) in
          (
            i ∷ xs,
            rw (go, wrap_i64-range (i +ℤ pos d) low high, e),
            λ z. (
              λ h. elim h [
                | inl here ↦ (
                  0,
                  omega (int_laws, ap pos_part here, ap neg_part here),
                  subst (λ y. Near inclusive y end) here near,
                )
                | inr there ↦
                    let (j, at, near') = (members z).0 there in
                    (suc j, omega (int_laws, ap pos_part at, ap neg_part at), near')
              ],
              λ (j, at, near'). Up-split i d end inclusive z xs members j at near',
            ),
          )
    ]
