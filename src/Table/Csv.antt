-- ===== src/Table/Csv.antt =====
-- CSV text of src/table.rs: `to_csv`, `csv_escape`, `from_csv` and the scanner `parse_csv_records`.
pub mod Scanner
pub mod Columns
pub mod RoundTrip
pub mod Rectangular
use ion_win.Base.{
  ℕ, ◌+◌, Bool, true, false, not, ◌&&◌, ◌||◌, Option, none, some, List, [], ◌∷◌, ◌++◌, map, Text,
  text_eq, contains, join, Result, ok, err, ◌>>=◌, length, ltb, ◌==◌, if◌then◌else◌, codes,
  is_empty,
}
use ion_win.Base.Decimal.{to_string}
use ion_win.Table.{Row, Table, find_column, elem}

abbrev pub comma : ℕ
comma = 44

abbrev pub quote : ℕ
quote = 34

abbrev pub newline : ℕ
newline = 10

abbrev pub carriage_return : ℕ
carriage_return = 13

-- `field.replace('"', "\"\"")`
unfoldable pub double_quotes : Text → Text
double_quotes [] = []
double_quotes (c ∷ field) =
    if c == quote then quote ∷ quote ∷ double_quotes field else c ∷ double_quotes field

unfoldable pub needs_quotes : Text → Bool
needs_quotes field =
    contains field comma
    || (contains field quote || (contains field newline || contains field carriage_return))

unfoldable pub csv_escape : Text → Text
unfolding double_quotes needs_quotes
csv_escape field = if needs_quotes field then quote ∷ (double_quotes field ++ quote ∷ []) else field

-- The names in the order in which they are first seen.
unfoldable pub add_columns : List Text → Row → List Text
unfolding elem
add_columns columns [] = columns
add_columns columns ((name, _) ∷ row) =
    add_columns (if elem name columns then columns else columns ++ name ∷ []) row

unfoldable pub collect_columns : List Text → List Row → List Text
unfolding add_columns
collect_columns columns [] = columns
collect_columns columns (row ∷ rows) = collect_columns (add_columns columns row) rows

abbrev pub columns_of : Table → List Text
columns_of table = collect_columns [] table.rows

unfoldable pub csv_cell : Row → Text → Text
unfolding csv_escape find_column
csv_cell row column = elim (find_column column row) [ none ↦ [] | some value ↦ csv_escape value ]

-- One line for each row, in the columns given.
unfoldable pub csv_rows : List Text → List Row → Text
unfolding csv_cell
csv_rows columns [] = []
csv_rows columns (row ∷ rows) =
    join (comma ∷ []) (map (csv_cell row) columns) ++ newline ∷ csv_rows columns rows

unfoldable pub to_csv : Table → Text
unfolding collect_columns csv_rows csv_escape
to_csv table =
    let columns = columns_of table in
    join (comma ∷ []) (map csv_escape columns) ++ newline ∷ csv_rows columns table.rows

-- The local variables of `parse_csv_records`.
pub record Scan : Type 0 where
  pub records : List (List Text)
  pub current : List Text
  pub field : Text
  pub in_quotes : Bool

-- One round of the loop that takes one character; a doubled quote is the case of `scan`.
unfoldable pub scan_char : ℕ → Scan → Scan
scan_char c s =
    if s.in_quotes
    then (if c == quote
        then record s { in_quotes = false }
        else record s { field = s.field ++ c ∷ [] })
    else if c == quote
    then record s { in_quotes = true }
    else if c == comma
    then record s { current = s.current ++ s.field ∷ []; field = [] }
    else if c == carriage_return
    then s
    else if c == newline
    then record s {
      records = s.records ++ (s.current ++ s.field ∷ []) ∷ [];
      current = [];
      field = [];
    }
    else record s { field = s.field ++ c ∷ [] }

unfoldable pub scan : Text → Scan → Scan
unfolding scan_char
scan [] s = s
scan (c ∷ []) s = scan_char c s
scan (c ∷ d ∷ text) s = elim (s.in_quotes && (c == quote && d == quote)) [
  | true ↦ scan text (record s { field = s.field ++ quote ∷ [] })
  | false ↦ scan (d ∷ text) (scan_char c s)
]

-- A last record without a newline is kept too.
unfoldable pub flush : Scan → List (List Text)
flush s =
    if not (is_empty s.field) || not (is_empty s.current)
    then s.records ++ (s.current ++ s.field ∷ []) ∷ []
    else s.records

unfoldable pub parse_csv_records : Text → List (List Text)
unfolding scan flush
parse_csv_records text =
    flush (scan text (record { records = []; current = []; field = []; in_quotes = false }))

-- `header.iter().zip(record.iter())`
unfoldable pub zip_row : List Text → List Text → Row
zip_row [] fields = []
zip_row (k ∷ header) [] = []
zip_row (k ∷ header) (v ∷ fields) = (k, v) ∷ zip_row header fields

abbrev pub too_many_fields : (row fields columns : ℕ) → Text
too_many_fields row fields columns =
    codes "from-csv: row "
    ++ (to_string row
        ++ (codes " has "
            ++ (to_string fields
                ++ (codes " field(s), expected at most "
                    ++ (to_string columns ++ codes " (matching the header)")))))

-- The rows after the header, from the position `i` on.
unfoldable pub rows_from : List Text → ℕ → List (List Text) → Result Text (List Row)
unfolding zip_row
rows_from header i [] = ok []
rows_from header i (fields ∷ records) =
    if ltb (length header) (length fields)
    then err (too_many_fields (i + 2) (length fields) (length header))
    else do rows ← rows_from header (i + 1) records; ok (zip_row header fields ∷ rows)

unfoldable pub table_of : List (List Text) → Result Text Table
unfolding rows_from
table_of [] = ok (record { rows = [] })
table_of (header ∷ records) = do rows ← rows_from header 0 records; ok (record { rows = rows })

unfoldable pub from_csv : Text → Result Text Table
unfolding parse_csv_records table_of
from_csv text = table_of (parse_csv_records text)
