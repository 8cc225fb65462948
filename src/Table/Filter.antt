-- ===== src/Table/Filter.antt =====
-- `filter` of src/table.rs (the `where` command), which keeps rows by a test of src/builtins.rs.
use ion_win.Base.{
  ◌≡◌, refl, ap, inl, inr, Bool, true, false, none, some, List, [], ◌∷◌, map, Text, Bool-cases,
  Option-cases, retain,
}
use ion_win.Builtins.{Host, eval_test}
use ion_win.Table.{Row, Table, find_column, elem, select_row, select}
use ion_win.Table.Laws.{find_column-select_row}

-- The rows of the second list are those of the first that have the property, in their order.
pub data Filtered (P : Row → Type 0) : List Row → List Row → Type 0 where
  end : Filtered P [] []
  kept :
      {row : Row} {rows rest : List Row}
      → P row
      → Filtered P rows rest
      → Filtered P (row ∷ rows) (row ∷ rest)
  left_out :
      {row : Row} {rows rest : List Row}
      → ¬ P row
      → Filtered P rows rest
      → Filtered P (row ∷ rows) rest

module _ (host : Host) where
  unfoldable pub keeps : Text → Text → Text → Row → Bool
  keeps column op value row = elim (find_column column row) [
    | none ↦ false
    | some v ↦ eval_test host (v ∷ op ∷ value ∷ [])
  ]

  unfoldable pub filter : Text → Text → Text → Table → Table
  unfolding keeps
  filter column op value table = record { rows = retain (keeps column op value) table.rows }

  -- A row that the filter is to keep: it has the column, and the test holds of its value there.
  pub record Passes (column op value : Text) (row : Row) : Type 0 where
    pub found : Text
    pub has : find_column column row ≡ some found
    pub holds : eval_test host (found ∷ op ∷ value ∷ []) ≡ true

  retain-Filtered :
      (column op value : Text) (rows : List Row)
      → Filtered (Passes column op value) rows (retain (keeps column op value) rows)
  unfolding keeps
  retain-Filtered column op value [] = end
  retain-Filtered column op value (row ∷ rows) =
      let later = retain-Filtered column op value rows in
      elim (Option-cases (find_column column row)) [
        | inl absent ↦ rw (absent, keeps) (left_out (λ p. cc (p.has, absent)) later)
        | inr (v, there) ↦ elim (Bool-cases (eval_test host (v ∷ op ∷ value ∷ []))) [
          | inl t ↦ rw (there, t, keeps) (kept (record { found = v; has = there; holds = t }) later)
          | inr f ↦ rw (there, f, keeps) (left_out (λ p. fails row v there f p) later)
        ]
      ]
    where
      fails :
          (row : Row) (v : Text)
          → find_column column row ≡ some v
          → eval_test host (v ∷ op ∷ value ∷ []) ≡ false
          → Passes column op value row
          → ⊥
      fails row v there f p = cc (p.has, p.holds, there, f)

  -- The filter keeps, in their order, exactly the rows that have the tested column with a value of
  -- which the test holds. If that column is among those that are selected, the rows can be filtered
  -- before or after the selection.
  pub select-filter :
      (columns : List Text) (column op value : Text) (t : Table)
      → elem column columns ≡ true
      → Filtered (Passes column op value) t.rows (filter column op value t).rows
        × (select columns (filter column op value t) ≡ filter column op value (select columns t))
  unfolding select keeps filter
  select-filter columns column op value t chosen =
      (retain-Filtered column op value t.rows, ap (λ rows. record { rows = rows }) (go t.rows))
    where
      same :
          (row : Row) → keeps column op value (select_row columns row) ≡ keeps column op value row
      same row = rw (keeps, find_column-select_row column columns row, chosen) refl

      go :
          (rows : List Row)
          → map (select_row columns) (retain (keeps column op value) rows)
            ≡ retain (keeps column op value) (map (select_row columns) rows)
      go [] = refl
      go (row ∷ rows) = elim (Bool-cases (keeps column op value row)) [
        | inl stays ↦ rw (stays, same row, stays) (ap (select_row columns row ∷◌) (go rows))
        | inr goes ↦ rw (goes, same row, goes) (go rows)
      ]
