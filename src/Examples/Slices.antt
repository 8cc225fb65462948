-- ===== src/Examples/Slices.antt =====
-- Slices and sequences of src/ranges.rs at concrete inputs.
use ion_win.Base.{
  List, codes, Text, ok, err, ◌⊎◌, ◌≡◌, refl, true, false, none, some, [], ◌∷◌, arith,
}
use ion_win.Base.Int.{pos, negsuc, i64_max}
use ion_win.Ranges.Index.{apply_array_slice, split_dots}
use ion_win.Ranges.Index.Safety.{apply_array_slice_lem}
use ion_win.Ranges.Slice.{Slice, slice_indices}
use ion_win.Ranges.Slice.Members.{Selects}
use ion_win.Ranges.Slice.Spec.{
  Ascending, Descending, slice_indices-Ascending, slice_indices-Descending,
}
use ion_win.Ranges.Sequence.{numeric_sequence}
use ion_win.Ranges.Sequence.Members.{Produces}
use ion_win.Ranges.Sequence.Spec.{
  Sequence, HasRoom, numeric_sequence-Produces, numeric_sequence_endless,
}

-- `[1,2..8]`, and `[2,-1..0]` of the tests in the source.
abbrev every_other : Slice
every_other = record {
  start = some (pos 1);
  step = some (pos 2);
  end = some (pos 8);
  inclusive = false;
}

abbrev backwards : Slice
backwards = record {
  start = some (pos 2);
  step = some (negsuc 0);
  end = some (pos 0);
  inclusive = false;
}

every_other_indices : slice_indices 10 every_other ≡ some (1 ∷ 3 ∷ 5 ∷ 7 ∷ [])
unfolding slice_indices
every_other_indices = refl

backwards_indices : slice_indices 3 backwards ≡ some (2 ∷ 1 ∷ [])
unfolding slice_indices
backwards_indices = refl

slice_indices-Ascending_example :
    Selects (slice_indices 10 every_other) (Ascending 10 2 every_other)
slice_indices-Ascending_example =
    slice_indices-Ascending 10 2 every_other refl (omega arith) (omega arith) (omega arith)
      (omega arith) (omega arith)

slice_indices-Descending_example : Selects (slice_indices 3 backwards) (Descending 3 1 backwards)
slice_indices-Descending_example =
    slice_indices-Descending 3 0 backwards refl (omega arith) (omega arith) (omega arith)

-- `{10..-2...-10}`
down_by_two :
    numeric_sequence 40 (pos 10) (negsuc 9) (pos 2) true
    ≡ some (
        pos 10
        ∷ pos 8
        ∷ pos 6
        ∷ pos 4
        ∷ pos 2
        ∷ pos 0
        ∷ negsuc 1
        ∷ negsuc 3
        ∷ negsuc 5
        ∷ negsuc 7
        ∷ negsuc 9
        ∷ [])
unfolding numeric_sequence
down_by_two = refl

down_room : HasRoom (pos 10) (negsuc 9) 2
down_room = record {
  start_low = omega arith;
  start_high = omega arith;
  end_low = omega arith;
  end_high = omega arith;
}

numeric_sequence-Produces_example :
    Produces
      (numeric_sequence 40 (pos 10) (negsuc 9) (pos 2) true)
      (Sequence (pos 10) (negsuc 9) 2 true)
numeric_sequence-Produces_example =
    numeric_sequence-Produces 40 (pos 10) (negsuc 9) 2 true (omega arith) down_room (omega arith)

numeric_sequence_endless_example : numeric_sequence 1000 (pos 7) i64_max (pos 1) true ≡ none
numeric_sequence_endless_example =
    numeric_sequence_endless 1000 (pos 7) 1 (omega arith) (omega arith) (omega arith)

abbrev letters : List Text
letters = codes "a" ∷ codes "b" ∷ codes "c" ∷ codes "d" ∷ []

picked : apply_array_slice letters (codes "3..-2..0") ≡ ok (codes "d" ∷ codes "b" ∷ [])
unfolding apply_array_slice slice_indices
picked = refl

apply_array_slice_lem_example :
    (((out : List Text) × (apply_array_slice letters (codes "3..-2..0") ≡ ok out))
      ⊎ ((message : Text) × (apply_array_slice letters (codes "3..-2..0") ≡ err message)))
    × ((parts : Text × Text)
        → split_dots (codes "3..-2..0") ≡ some parts
        → (out : List Text) × (apply_array_slice letters (codes "3..-2..0") ≡ ok out))
apply_array_slice_lem_example = apply_array_slice_lem letters (codes "3..-2..0") (omega arith)
