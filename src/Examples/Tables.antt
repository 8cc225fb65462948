-- ===== src/Examples/Tables.antt =====
-- The tables of src/table.rs at concrete inputs.
use ion_win.Base.{
  List, ◌≡◌, refl, ◌↔◌, true, false, some, [], ◌∷◌, map, ok, codes, join, contains, sym, ap, ◌∙◌,
  is_empty, retain, text_eq, length, get_elem?, ℕ,
}
use ion_win.Builtins.{Host}
use ion_win.Table.{Row, Table, elem, select, merge}
use ion_win.Table.Laws.{select-select, IsMerged, merge-IsMerged}
use ion_win.Table.Filter.{filter, Passes, Filtered, select-filter}
use ion_win.Table.Csv.{
  columns_of, to_csv, from_csv, collect_columns, csv_rows, csv_cell, csv_escape,
}
use ion_win.Table.Csv.Rectangular.{Distinct, from_csv-HaveColumns}
use ion_win.Table.Csv.Columns.{first_seen, all_names}
use ion_win.Table.Csv.RoundTrip.{fill, from_csv-to_csv}

abbrev processes : Table
processes = record {
  rows =
      ((codes "pid", codes "4") ∷ (codes "name", codes "a,\"b\"") ∷ [])
      ∷ ((codes "name", codes "two\nlines") ∷ [])
      ∷ [];
}

-- Quotes, commas and newlines in a value, and a row without the first column.
written : to_csv processes ≡ codes "pid,name\n4,\"a,\"\"b\"\"\"\n,\"two\nlines\"\n"
unfolding to_csv csv_rows csv_cell csv_escape collect_columns join text_eq contains
written = refl

processes_columns : columns_of processes ≡ codes "pid" ∷ codes "name" ∷ []
unfolding collect_columns text_eq
processes_columns = refl

from_csv-to_csv_example :
    (from_csv (to_csv processes)
      ≡ ok (record { rows = map (fill (columns_of processes)) processes.rows }))
    × (columns_of processes ≡ first_seen (all_names processes.rows))
from_csv-to_csv_example =
    from_csv-to_csv processes (λ e. cc (ap is_empty (sym processes_columns ∙ e)))

select-select_example :
    select (codes "name" ∷ codes "cpu" ∷ []) (select (codes "pid" ∷ codes "name" ∷ []) processes)
    ≡ select
        (retain (λ x. elem x (codes "pid" ∷ codes "name" ∷ [])) (codes "name" ∷ codes "cpu" ∷ []))
        processes
select-select_example =
    select-select (codes "name" ∷ codes "cpu" ∷ []) (codes "pid" ∷ codes "name" ∷ []) processes

merge-IsMerged_example :
    (((t : Table) × (merge processes processes ≡ ok t))
      ↔ (length processes.rows ≡ length processes.rows))
    × ((t : Table)
        → merge processes processes ≡ ok t
        → (length t.rows ≡ length processes.rows)
          × ((i : ℕ) (l r : Row)
              → get_elem? processes.rows i ≡ some l
              → get_elem? processes.rows i ≡ some r
              → (m : Row) × (get_elem? t.rows i ≡ some m) × IsMerged l r m))
merge-IsMerged_example = merge-IsMerged processes processes

-- A host whose numbers are the lengths of their texts, without files.
abbrev host : Host
host = record {
  Float = ℕ;
  parse = λ s. some (length s);
  eq = λ x y. false;
  lt = λ x y. true;
  le = λ x y. true;
  exists = λ s. false;
  is_file = λ s. false;
  is_dir = λ s. false;
}

select-filter_example :
    Filtered
      (Passes host (codes "pid") (codes "-gt") (codes "1"))
      processes.rows
      (filter host (codes "pid") (codes "-gt") (codes "1") processes).rows
    × (select (codes "pid" ∷ []) (filter host (codes "pid") (codes "-gt") (codes "1") processes)
        ≡ filter host (codes "pid") (codes "-gt") (codes "1") (select (codes "pid" ∷ []) processes))
unfolding elem text_eq
select-filter_example =
    select-filter host (codes "pid" ∷ []) (codes "pid") (codes "-gt") (codes "1") processes refl

abbrev jobs : List Row
jobs =
    ((codes "pid", codes "1") ∷ (codes "name", codes "a,b") ∷ [])
    ∷ ((codes "pid", codes "2") ∷ (codes "name", []) ∷ [])
    ∷ []

abbrev first_job : Row
first_job = (codes "pid", codes "0") ∷ (codes "name", codes "say \"hi\"") ∷ []

from_csv-HaveColumns_example :
    from_csv (to_csv (record { rows = first_job ∷ jobs })) ≡ ok (record { rows = first_job ∷ jobs })
unfolding Distinct elem text_eq
from_csv-HaveColumns_example =
    from_csv-HaveColumns (codes "pid") (codes "name" ∷ []) first_job jobs (refl, (refl, tt))
      (refl, (refl, (refl, tt)))
