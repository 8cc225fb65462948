-- ===== src/Table.antt =====
-- Tables of src/table.rs: ordered lists of flat records, with `select`, `filter` and `merge`. JSON
-- goes through a library and is left out. CSV text is in Table/Csv.
pub mod Csv
pub mod Laws
pub mod Filter
use ion_win.Base.{
  ℕ, Bool, true, false, ◌||◌, Option, none, some, List, [], ◌∷◌, ◌++◌, map, Text, text_eq, Result,
  ok, err, length, ◌==◌, if◌then◌else◌, codes, retain, is_some,
}
use ion_win.Base.Decimal.{to_string}

abbrev pub Row : Type 0
Row = List (Text × Text)

pub record Table : Type 0 where
  pub rows : List Row

-- `row.iter().find(|(k, _)| k == column)`, with its value.
unfoldable pub find_column : Text → Row → Option Text
find_column column [] = none
find_column column ((name, value) ∷ row) =
    let rest = find_column column row in if text_eq name column then some value else rest

-- `columns.contains(name)`
unfoldable pub elem : Text → List Text → Bool
elem name [] = false
elem name (column ∷ columns) = text_eq column name || elem name columns

-- A right-hand cell replaces the first one of its name, or goes to the end.
unfoldable pub merge_cell : Row → Text → Text → Row
merge_cell [] column value = (column, value) ∷ []
merge_cell ((name, existing) ∷ row) column value =
    let rest = merge_cell row column value in
    if text_eq name column then (name, value) ∷ row else (name, existing) ∷ rest

unfoldable pub merge_row : Row → Row → Row
unfolding merge_cell
merge_row left [] = left
merge_row left ((column, value) ∷ right) = merge_row (merge_cell left column value) right

unfoldable pub merge_rows : List Row → List Row → List Row
unfolding merge_row
merge_rows [] right = []
merge_rows (l ∷ left) [] = l ∷ left
merge_rows (l ∷ left) (r ∷ right) = merge_row l r ∷ merge_rows left right

abbrev pub row_count_mismatch : (left right : ℕ) → Text
row_count_mismatch left right =
    codes "merge: row count mismatch (left has "
    ++ (to_string left ++ (codes ", right has " ++ (to_string right ++ codes ")")))

unfoldable pub merge : Table → Table → Result Text Table
unfolding merge_rows
merge left right =
    if length left.rows == length right.rows
    then ok (record { rows = merge_rows left.rows right.rows })
    else err (row_count_mismatch (length left.rows) (length right.rows))

-- The named columns of a row, in the order of the names; an absent one is left out.
unfoldable pub select_row : List Text → Row → Row
unfolding find_column
select_row [] row = []
select_row (column ∷ columns) row = elim (find_column column row) [
  | none ↦ select_row columns row
  | some value ↦ (column, value) ∷ select_row columns row
]

unfoldable pub select : List Text → Table → Table
unfolding select_row
select columns table = record { rows = map (select_row columns) table.rows }
