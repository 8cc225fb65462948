-- ===== src/Table/Csv/RoundTrip.antt =====
-- Writing a table of src/table.rs as CSV text and reading it back.
use ion_win.Table.Csv.Columns.{first_seen, all_names, columns_of-first_seen}
use ion_win.Base.{
  ℕ, ◌+◌, ◌≡◌, refl, ◌∙◌, ap, ◌≢◌, false, Option, none, some, List, [], ◌∷◌, ◌++◌, map, Text,
  contains, ok, length, ltb, arith,
}
use mathlib.Core.List.{append_assoc, append-nil}
use ion_win.Table.{Row, Table, find_column}
use ion_win.Table.Csv.{
  csv_escape, csv_cell, csv_rows, columns_of, to_csv, scan, flush, parse_csv_records, zip_row,
  rows_from, table_of, from_csv, double_quotes, needs_quotes,
}
use ion_win.Table.Csv.Scanner.{at, scan-join}

-- The value of a row in a column; CSV has nothing but the empty text for one that is missing.
abbrev pub cell : Row → Text → Text
cell row column = elim (find_column column row) [ none ↦ [] | some value ↦ value ]

abbrev pub cells : List Text → Row → List Text
cells columns row = map (cell row) columns

-- The row with exactly the given columns.
abbrev pub fill : List Text → Row → Row
fill columns row = map (λ column. (column, cell row column)) columns

csv_cell-cell : (row : Row) (column : Text) → csv_cell row column ≡ csv_escape (cell row column)
unfolding csv_cell csv_escape double_quotes needs_quotes contains
csv_cell-cell row column = go (find_column column row)
  where
    go :
        (found : Option Text)
        → elim found [ none ↦ [] | some value ↦ csv_escape value ]
          ≡ csv_escape (elim found [ none ↦ [] | some value ↦ value ])
    go none = refl
    go (some value) = refl

map-csv_cell :
    (row : Row) (columns : List Text)
    → map (csv_cell row) columns ≡ map csv_escape (cells columns row)
map-csv_cell row [] = refl
map-csv_cell row (c ∷ columns) = cc (csv_cell-cell row c, map-csv_cell row columns)

scan-csv_rows :
    (k : Text) (ks : List Text) (rows : List Row) (rs : List (List Text))
    → scan (csv_rows (k ∷ ks) rows) (at rs [] [] false)
      ≡ at (rs ++ map (cells (k ∷ ks)) rows) [] [] false
unfolding csv_rows scan
scan-csv_rows k ks [] rs = rw (append-nil rs) refl
scan-csv_rows k ks (row ∷ rows) rs = rw (map-csv_cell row (k ∷ ks)) (
    scan-join (cell row k) (cells ks row) (csv_rows (k ∷ ks) rows) rs []
    ∙ scan-csv_rows k ks rows (rs ++ cells (k ∷ ks) row ∷ [])
    ∙ rw (append_assoc rs (cells (k ∷ ks) row ∷ []) (map (cells (k ∷ ks)) rows)) refl)

-- The records of the text are the header and the cells of the rows.
parse-to_csv :
    (k : Text) (ks : List Text) (t : Table)
    → columns_of t ≡ k ∷ ks
    → parse_csv_records (to_csv t) ≡ (k ∷ ks) ∷ map (cells (k ∷ ks)) t.rows
unfolding parse_csv_records to_csv flush
parse-to_csv k ks t h = rw h (
    ap flush
      (scan-join k ks (csv_rows (k ∷ ks) t.rows) [] [] ∙ scan-csv_rows k ks t.rows ((k ∷ ks) ∷ [])))

length-cells : (columns : List Text) (row : Row) → length (cells columns row) ≡ length columns
length-cells [] row = refl
length-cells (c ∷ columns) row = omega (arith, length-cells columns row)

zip_row-cells :
    (columns : List Text) (row : Row) → zip_row columns (cells columns row) ≡ fill columns row
unfolding zip_row
zip_row-cells [] row = refl
zip_row-cells (c ∷ columns) row = cc (zip_row-cells columns row)

rows_from-cells :
    (columns : List Text) (i : ℕ) (rows : List Row)
    → rows_from columns i (map (cells columns) rows) ≡ ok (map (fill columns) rows)
unfolding rows_from
rows_from-cells columns i [] = refl
rows_from-cells columns i (row ∷ rows) =
    rw (fits, rows_from-cells columns (i + 1) rows, zip_row-cells columns row) refl
  where
    fits : ltb (length columns) (length (cells columns row)) ≡ false
    fits = ground (arith, length-cells columns row)

from_csv-fill :
    (t : Table)
    → columns_of t ≢ []
    → from_csv (to_csv t) ≡ ok (record { rows = map (fill (columns_of t)) t.rows })
unfolding from_csv table_of
from_csv-fill t some_column = go (columns_of t) refl
  where
    go :
        (columns : List Text)
        → columns_of t ≡ columns
        → from_csv (to_csv t) ≡ ok (record { rows = map (fill (columns_of t)) t.rows })
    go [] h = absurd (some_column h)
    go (k ∷ ks) h = rw (parse-to_csv k ks t h, rows_from-cells (k ∷ ks) 0 t.rows, h) refl

-- A table that has a column comes back from its CSV text with every row in all the columns, which
-- are the names of all the cells of all rows, each once, in the order in which they are first seen.
-- A row has the empty text where it had no such column.
pub from_csv-to_csv :
    (t : Table)
    → columns_of t ≢ []
    → (from_csv (to_csv t) ≡ ok (record { rows = map (fill (columns_of t)) t.rows }))
      × (columns_of t ≡ first_seen (all_names t.rows))
from_csv-to_csv t some_column = (from_csv-fill t some_column, columns_of-first_seen t)
