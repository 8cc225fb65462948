-- ===== src/Ranges/Index.antt =====
-- Index and slice specifications of src/ranges.rs: `parse_slice`, `parse_index_spec` and
-- `apply_array_slice`.
pub mod Fields
pub mod Safety
use ion_win.Base.{
  ℕ, zero, suc, ◌+◌, ◌-◌, ◌*◌, ◌^◌, Bool, true, false, not, ◌&&◌, ◌||◌, Option, none, some, List,
  [], ◌∷◌, ◌++◌, Text, Result, ok, err, panic, ◌>>=◌, if◌then◌else◌, ◌==◌, is_empty, length, ltb,
  leb, get_elem?, codes, reverse,
}
use ion_win.Base.Chars.{trim}
use ion_win.Base.Parse.{parse_i64}
use ion_win.Base.Int.{ℤ, pos, negsuc}
use ion_win.Base.Decimal.{to_string}
use ion_win.Ranges.Slice.{Slice, normalize_index, slice_indices}

-- `find("..")`: the texts in front of the first two dots and behind them.
unfoldable pub split_dots : Text → Option (Text × Text)
split_dots [] = none
split_dots (c ∷ []) = none
split_dots (c ∷ d ∷ s) = elim (c == 46 && d == 46) [
  | true ↦ some ([], s)
  | false ↦ elim (split_dots (d ∷ s)) [ none ↦ none | some parts ↦ some (c ∷ parts.0, parts.1) ]
]

-- `split_once(',')`
unfoldable pub split_comma : Text → Option (Text × Text)
split_comma [] = none
split_comma (c ∷ s) = elim (c == 44) [
  | true ↦ some ([], s)
  | false ↦ elim (split_comma s) [ none ↦ none | some parts ↦ some (c ∷ parts.0, parts.1) ]
]

-- The third mark of an inclusive range, taken off: a dot or an equals sign.
unfoldable pub strip_inclusive : Text → Option Text
strip_inclusive [] = none
strip_inclusive (c ∷ s) = if c == 46 || c == 61 then some s else none

pub record Tail : Type 0 where
  pub step_str : Option Text
  pub inclusive : Bool
  pub end_str : Text

unfoldable pub stepped : Text → Text → Tail
unfolding strip_inclusive
stepped step after = elim (strip_inclusive after) [
  | some end ↦ record { step_str = some step; inclusive = true; end_str = end }
  | none ↦ record { step_str = some step; inclusive = false; end_str = after }
]

unfoldable pub parse_tail : Text → Tail
unfolding strip_inclusive split_dots stepped
parse_tail rest = elim (strip_inclusive rest) [
  | some end ↦ record { step_str = none; inclusive = true; end_str = end }
  | none ↦ elim (split_dots rest) [
    | some parts ↦ stepped parts.0 parts.1
    | none ↦ record { step_str = none; inclusive = false; end_str = rest }
  ]
]

unfoldable pub parse_bound : Text → Option ℤ
unfolding parse_i64
parse_bound s = if is_empty s then none else parse_i64 s

-- `filter(|s| !s.is_empty())`
abbrev non_empty : Option Text → Option Text
non_empty none = none
non_empty (some []) = none
non_empty (some (c ∷ s)) = some (c ∷ s)

unfoldable pub parse_step : Option Text → Option Text → Option ℤ
unfolding parse_i64
parse_step step comma_step = elim (non_empty step) [
  | some s ↦ parse_i64 s
  | none ↦ elim (non_empty comma_step) [ none ↦ none | some s ↦ parse_i64 s ]
]

abbrev start_of : Text → Text × Option Text
start_of left = elim (split_comma left) [
  | none ↦ (left, none)
  | some parts ↦ (parts.0, some parts.1)
]

unfoldable pub slice_of : Text → Tail → Slice
unfolding split_comma parse_bound parse_step
slice_of left tail = record {
  start = parse_bound (start_of left).0;
  step = parse_step tail.step_str (start_of left).1;
  end = parse_bound tail.end_str;
  inclusive = tail.inclusive;
}

unfoldable pub parse_slice : Text → Option Slice
unfolding split_dots parse_tail slice_of
parse_slice spec = elim (split_dots spec) [
  | none ↦ none
  | some parts ↦ some (slice_of parts.0 (parse_tail parts.1))
]

pub data IndexSpec : Type 0 where
  index : ℤ → IndexSpec
  range : Slice → IndexSpec

unfoldable pub parse_index_spec : Text → Option IndexSpec
unfolding parse_slice parse_i64 trim
parse_index_spec spec = elim (parse_slice spec) [
  | some slice ↦ some (range slice)
  | none ↦ elim (parse_i64 (trim spec)) [ none ↦ none | some i ↦ some (index i) ]
]

abbrev to_string_i64 : ℤ → Text
to_string_i64 (pos n) = to_string n
to_string_i64 (negsuc n) = 45 ∷ to_string (suc n)

-- `items[i]` at each index in turn, which panics out of bounds.
unfoldable pub pick : List Text → List ℕ → Result Text (List Text)
pick items [] = ok []
pick items (i ∷ indices) = elim (get_elem? items i) [
  | none ↦ panic
  | some item ↦ do rest ← pick items indices; ok (item ∷ rest)
]

-- `panic` also stands for a loop that used up its fuel.
unfoldable pub pick_slice : List Text → Option (List ℕ) → Result Text (List Text)
unfolding pick
pick_slice items none = panic
pick_slice items (some indices) = pick items indices

unfoldable pub pick_index : List Text → ℤ → Result Text (List Text)
unfolding pick
pick_index items i = elim (normalize_index i (length items)) [
  | none ↦ err (codes "index " ++ (to_string_i64 i ++ codes " out of bounds"))
  | some k ↦ pick items (k ∷ [])
]

unfoldable pub apply_array_slice : List Text → Text → Result Text (List Text)
unfolding parse_index_spec pick_slice pick_index
apply_array_slice items spec = elim (parse_index_spec spec) [
  | none ↦ err (codes "invalid index/range '" ++ (spec ++ codes "'"))
  | some parsed ↦ elim parsed [
    | index i ↦ pick_index items i
    | range slice ↦ pick_slice items (slice_indices (length items) slice)
  ]
]
