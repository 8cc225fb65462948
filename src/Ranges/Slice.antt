-- ===== src/Ranges/Slice.antt =====
-- `Slice`, `normalize_index` and `slice_indices` of src/ranges.rs. Integers are i64 of a release
-- build, and lengths are below 2^63, the limit of a Rust vector.
pub mod Members
pub mod Descending
pub mod Spec
use ion_win.Base.{
  ℕ, zero, suc, ◌+◌, ◌-◌, ◌^◌, ◌<◌, Bool, true, false, ◌&&◌, ◌||◌, Option, none, some, List, [],
  ◌∷◌, ltb, leb, if◌then◌else◌, ◌==◌,
}
use mathlib.Core.Option
use ion_win.Base.Int.{ℤ, pos, negsuc, ◌+ℤ◌, ◌-ℤ◌, ltb_ℤ, leb_ℤ, wrap_i64, as_usize}

pub record Slice : Type 0 where
  pub start : Option ℤ
  pub step : Option ℤ
  pub end : Option ℤ
  pub inclusive : Bool

unfoldable pub normalize_index : ℤ → ℕ → Option ℕ
unfolding as_usize
normalize_index i len = if ltb_ℤ i (pos 0) || leb len (as_usize i) then none else some (as_usize i)

abbrev max_zero : ℤ → ℤ
max_zero (pos n) = pos n
max_zero (negsuc n) = pos 0

-- The two loops. `none` is a loop that used up its fuel.
pub ascend : ℕ → ℤ → ℤ → ℤ → ℕ → Option (List ℕ)
unfolding as_usize wrap_i64 ◌+ℤ◌
ascend zero i step last len = none
ascend (suc fuel) i step last len =
    let rest = Option.map (as_usize i ∷◌) (ascend fuel (wrap_i64 (i +ℤ step)) step last len) in
    if leb_ℤ i last && ltb (as_usize i) len then rest else some []

pub descend : ℕ → ℤ → ℤ → ℤ → ℕ → Option (List ℕ)
unfolding as_usize wrap_i64 ◌+ℤ◌
descend zero i step last len = none
descend (suc fuel) i step last len =
    let rest = Option.map (as_usize i ∷◌) (descend fuel (wrap_i64 (i +ℤ step)) step last len) in
    if leb_ℤ last i && (leb_ℤ (pos 0) i && ltb (as_usize i) len) then rest else some []

abbrev or_else {ℓ} : {A : Type ℓ} → Option A → A → A
or_else none d = d
or_else (some a) d = a

-- The last index of an ascending slice, and the first bound of a descending one.
unfoldable pub last_up : ℕ → Slice → ℤ
unfolding ◌-ℤ◌ wrap_i64
last_up len slice = elim slice.end [
  | none ↦ pos len -ℤ pos 1
  | some e ↦ if slice.inclusive then e else wrap_i64 (e -ℤ pos 1)
]

unfoldable pub last_down : Slice → ℤ
unfolding ◌+ℤ◌ wrap_i64
last_down slice = elim slice.end [
  | none ↦ pos 0
  | some e ↦ if slice.inclusive then e else wrap_i64 (e +ℤ pos 1)
]

unfoldable pub first_up : Slice → ℤ
first_up slice = max_zero (or_else slice.start (pos 0))

unfoldable pub first_down : ℕ → Slice → ℤ
unfolding ◌-ℤ◌
first_down len slice = or_else slice.start (pos len -ℤ pos 1)

abbrev pub step_of : Slice → ℤ
step_of slice = or_else slice.step (pos 1)

-- One round for each index below `len`, and one for the test that ends the loop.
unfoldable pub slice_indices : ℕ → Slice → Option (List ℕ)
unfolding ascend descend first_up first_down last_up last_down
slice_indices len slice = if len == 0 then some [] else elim (step_of slice) [
  | pos n ↦
      if n == 0 then some [] else ascend (suc len) (first_up slice) (pos n) (last_up len slice) len
  | negsuc n ↦ descend (suc len) (first_down len slice) (negsuc n) (last_down slice) len
]
