-- ===== src/Ranges/Sequence.antt =====
-- `numeric_sequence` of src/ranges.rs, over the i64 arithmetic of a release build. The loops take
-- fuel, since one of them may not end; `none` is a loop that used up its fuel.
pub mod Members
pub mod Spec
use ion_win.Base.{
  ℕ, zero, suc, ◌+◌, ◌-◌, ◌^◌, Bool, true, false, Option, none, some, List, [], ◌∷◌, if◌then◌else◌,
  ltb,
}
use mathlib.Core.Option
use ion_win.Base.Int.{ℤ, pos, negsuc, ◌+ℤ◌, ◌-ℤ◌, ltb_ℤ, leb_ℤ, wrap_i64}

abbrev pub test_up : Bool → ℤ → ℤ → Bool
test_up inclusive i end = if inclusive then leb_ℤ i end else ltb_ℤ i end

abbrev pub test_down : Bool → ℤ → ℤ → Bool
test_down inclusive i end = if inclusive then leb_ℤ end i else ltb_ℤ end i

pub count_up : ℕ → ℤ → ℤ → ℤ → Bool → Option (List ℤ)
unfolding wrap_i64 ◌+ℤ◌
count_up zero i end step inclusive = none
count_up (suc fuel) i end step inclusive =
    let rest = Option.map (i ∷◌) (count_up fuel (wrap_i64 (i +ℤ step)) end step inclusive) in
    if test_up inclusive i end then rest else some []

pub count_down : ℕ → ℤ → ℤ → ℤ → Bool → Option (List ℤ)
unfolding wrap_i64 ◌-ℤ◌
count_down zero i end step inclusive = none
count_down (suc fuel) i end step inclusive =
    let rest = Option.map (i ∷◌) (count_down fuel (wrap_i64 (i -ℤ step)) end step inclusive) in
    if test_down inclusive i end then rest else some []

abbrev pub max_one : ℤ → ℤ
max_one step = if ltb_ℤ step (pos 1) then pos 1 else step

unfoldable pub numeric_sequence : ℕ → ℤ → ℤ → ℤ → Bool → Option (List ℤ)
unfolding count_up count_down
numeric_sequence fuel start end step inclusive =
    if leb_ℤ start end
    then count_up fuel start end (max_one step) inclusive
    else count_down fuel start end (max_one step) inclusive

-- `step.unwrap_or(1).unsigned_abs().max(1) as i64`
unfoldable pub step_magnitude : Option ℤ → ℤ
step_magnitude none = pos 1
step_magnitude (some (pos zero)) = pos 1
step_magnitude (some (pos (suc n))) = pos (suc n)
step_magnitude (some (negsuc n)) =
    if ltb (suc n) (2 ^ 63) then pos (suc n) else negsuc (2 ^ 64 - suc n - 1)
