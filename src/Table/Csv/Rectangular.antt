-- ===== src/Table/Csv/Rectangular.antt =====
-- Tables of src/table.rs whose rows all have the same columns, through CSV text and back.
use ion_win.Base.{
  ◌≡◌, refl, sym, ◌∙◌, ap, inl, inr, true, false, Option, none, some, List, [], ◌∷◌, ◌++◌, map,
  Text, text_eq, text_eq_sound, text_eq_refl, subst, ok, Bool-cases, All, arith,
}
use mathlib.Core.List.{append_assoc, append-nil}
use ion_win.Table.{Row, Table, find_column, elem}
use ion_win.Table.Laws.{names}
use ion_win.Table.Csv.{add_columns, collect_columns, columns_of, to_csv, from_csv}
use ion_win.Table.Csv.Columns.{elem-push}
use ion_win.Table.Csv.RoundTrip.{cell, fill, from_csv-to_csv}

-- No name stands twice.
unfoldable pub Distinct : List Text → Type 0
Distinct [] = Unit
Distinct (name ∷ rest) = (elem name rest ≡ false) × Distinct rest

text_eq_sym : (a b : Text) → text_eq a b ≡ false → text_eq b a ≡ false
text_eq_sym a b h = elim (Bool-cases (text_eq b a)) [
  | inl e ↦ absurd (cc (h, text_eq_refl a, ap (text_eq a) (text_eq_sound b a e)))
  | inr e ↦ e
]

Apart : List Text → List Text → Type 0
Apart acc = All (λ name. elem name acc ≡ false)

Apart-push :
    (n : Text) (acc ms : List Text) → Apart acc ms → elem n ms ≡ false → Apart (acc ++ n ∷ []) ms
unfolding elem Apart
Apart-push n acc [] h fresh = tt
Apart-push n acc (m ∷ ms) h fresh = (
  elem-push m n acc ∙ rw (h.0, text_eq_sym m n (ground (arith, fresh))) refl,
  Apart-push n acc ms h.1 (ground (arith, fresh)),
)

add_columns-new :
    (acc : List Text) (row : Row)
    → Apart acc (names row)
    → Distinct (names row)
    → add_columns acc row ≡ acc ++ names row
unfolding add_columns Apart Distinct
add_columns-new acc [] h d = sym (append-nil acc)
add_columns-new acc ((n, v) ∷ row) h d =
    rw (h.0, add_columns)
      (add_columns-new (acc ++ n ∷ []) row (Apart-push n acc (names row) h.1 d.0) d.1
        ∙ append_assoc acc (n ∷ []) (names row))

add_columns-old :
    (acc : List Text) (row : Row)
    → All (λ name. elem name acc ≡ true) (names row)
    → add_columns acc row ≡ acc
unfolding add_columns
add_columns-old acc [] h = refl
add_columns-old acc ((n, v) ∷ row) h = rw (h.0, add_columns) (add_columns-old acc row h.1)

elem-weaken :
    (n : Text) (xs ys : List Text)
    → All (λ name. elem name xs ≡ true) ys
    → All (λ name. elem name (n ∷ xs) ≡ true) ys
unfolding elem
elem-weaken n xs [] h = tt
elem-weaken n xs (y ∷ ys) h = (rw h.0 (ground arith), elem-weaken n xs ys h.1)

elem_self : (xs : List Text) → All (λ name. elem name xs ≡ true) xs
unfolding elem
elem_self [] = tt
elem_self (x ∷ xs) = (rw (text_eq_refl x) refl, elem-weaken x xs xs (elem_self xs))

Apart-nil : (ms : List Text) → Apart [] ms
unfolding Apart elem
Apart-nil [] = tt
Apart-nil (m ∷ ms) = (refl, Apart-nil ms)

-- The rows have the columns of the header, in its order.
abbrev pub HaveColumns : List Text → List Row → Type 0
HaveColumns header rows = All (λ row. names row ≡ header) rows

collect_columns-same :
    (header : List Text) (rows : List Row)
    → HaveColumns header rows
    → collect_columns header rows ≡ header
unfolding collect_columns
collect_columns-same header [] h = refl
collect_columns-same header (row ∷ rows) h =
    rw
      (
        add_columns-old header row
            (subst (All (λ name. elem name header ≡ true)) (sym h.0) (elem_self header)),
        collect_columns,
      )
      (collect_columns-same header rows h.1)

value_of : Option Text → Text
value_of found = elim found [ none ↦ [] | some value ↦ value ]

find_column-skip :
    (n v c : Text) (row : Row)
    → text_eq n c ≡ false
    → find_column c ((n, v) ∷ row) ≡ find_column c row
unfolding find_column
find_column-skip n v c row other = rw (other, find_column) refl

find_column_self : (n v : Text) (row : Row) → find_column n ((n, v) ∷ row) ≡ some v
unfolding find_column
find_column_self n v row = rw (text_eq_refl n, find_column) refl

cell-skip : (n v c : Text) (row : Row) → text_eq n c ≡ false → cell ((n, v) ∷ row) c ≡ cell row c
unfolding value_of
cell-skip n v c row other = ap value_of (find_column-skip n v c row other)

cell_self : (n v : Text) (row : Row) → cell ((n, v) ∷ row) n ≡ v
unfolding value_of
cell_self n v row = ap value_of (find_column_self n v row)

fill-skip :
    (n v : Text) (row : Row) (cols : List Text)
    → elem n cols ≡ false
    → fill cols ((n, v) ∷ row) ≡ fill cols row
unfolding find_column elem
fill-skip n v row [] h = refl
fill-skip n v row (c ∷ cols) h =
    let other : text_eq n c ≡ false = text_eq_sym c n (ground (arith, h)) in
    cc (cell-skip n v c row other, fill-skip n v row cols (ground (arith, h)))

fill-names : (row : Row) → Distinct (names row) → fill (names row) row ≡ row
unfolding find_column Distinct
fill-names [] d = refl
fill-names ((n, v) ∷ row) d =
    cc (cell_self n v row, fill-skip n v row (names row) d.0, fill-names row d.1)

fill-same :
    (header : List Text) (rows : List Row)
    → Distinct header
    → HaveColumns header rows
    → map (fill header) rows ≡ rows
fill-same header [] d h = refl
fill-same header (row ∷ rows) d h = cc (
  ap (λ columns. fill columns row) (sym h.0) ∙ fill-names row (subst Distinct (sym h.0) d),
  fill-same header rows d h.1,
)

-- A table with a row, whose rows all have the same columns, at least one of them and none twice,
-- is the same after it is written as CSV text and read back.
pub from_csv-HaveColumns :
    (k : Text) (ks : List Text) (row : Row) (rows : List Row)
    → Distinct (k ∷ ks)
    → HaveColumns (k ∷ ks) (row ∷ rows)
    → from_csv (to_csv (record { rows = row ∷ rows })) ≡ ok (record { rows = row ∷ rows })
unfolding collect_columns
from_csv-HaveColumns k ks row rows d h =
    (from_csv-to_csv table (λ e. absurd (cc (columns, e)))).0
    ∙ ap (λ rs. ok (record { rows = rs }))
        (ap (λ columns. map (fill columns) (row ∷ rows)) columns
          ∙ fill-same (k ∷ ks) (row ∷ rows) d h)
  where
    table : Table
    table = record { rows = row ∷ rows }

    columns : columns_of table ≡ k ∷ ks
    columns =
        ap (λ c. collect_columns c rows)
          (add_columns-new [] row (Apart-nil (names row)) (subst Distinct (sym h.0) d) ∙ h.0)
        ∙ collect_columns-same (k ∷ ks) rows h.1
