-- ===== src/Table/Laws.antt =====
-- `select` and `merge` of src/table.rs by the cells that the result has.
use ion_win.Base.{
  ℕ, zero, suc, ◌≡◌, refl, sym, ◌∙◌, ap, ◌↔◌, inl, inr, true, Option, none, some, List, [], ◌∷◌,
  ◌++◌, map, Text, ok, length, if◌then◌else◌, ◌==◌, Option-cases, Bool-cases, text_eq,
  text_eq_sound, text_eq_apart, ==_iff, subst, retain, get_elem?, arith,
}
use ion_win.Table.{
  Row, Table, find_column, elem, merge_cell, merge_row, merge_rows, merge, select_row, select,
}
use ion_win.Table.Csv.{add_columns}

find_column-same :
    (y c : Text) (row : Row) → text_eq y c ≡ true → find_column c row ≡ find_column y row
find_column-same y c row same = ap (λ k. find_column k row) (sym (text_eq_sound y c same))

pub find_column-select_row :
    (c : Text) (ys : List Text) (row : Row)
    → find_column c (select_row ys row) ≡ (if elem c ys then find_column c row else none)
unfolding find_column select_row elem
find_column-select_row c [] row = refl
find_column-select_row c (y ∷ ys) row = elim (Option-cases (find_column y row)) [
  | inl absent ↦ elim (Bool-cases (text_eq y c)) [
    | inl same ↦
        let gone = find_column-same y c row same ∙ absent in
        rw (absent, same, gone, select_row, elem)
          (find_column-select_row c ys row ∙ rw gone (ground arith))
    | inr other ↦ rw (absent, other, select_row, elem) (find_column-select_row c ys row)
  ]
  | inr (v, found) ↦ elim (Bool-cases (text_eq y c)) [
    | inl same ↦
        rw (found, same, find_column-same y c row same ∙ found, select_row, elem, find_column) refl
    | inr other ↦ rw (found, other, select_row, elem, find_column) (find_column-select_row c ys row)
  ]
]

select_row-select_row :
    (xs ys : List Text) (row : Row)
    → select_row xs (select_row ys row) ≡ select_row (retain (λ x. elem x ys) xs) row
unfolding select_row
select_row-select_row [] ys row = refl
select_row-select_row (x ∷ xs) ys row = elim (Bool-cases (elem x ys)) [
  | inl chosen ↦ elim (Option-cases (find_column x row)) [
    | inl absent ↦
        rw (chosen, find_column-select_row x ys row, chosen, absent, select_row)
          (select_row-select_row xs ys row)
    | inr (v, found) ↦
        rw (chosen, find_column-select_row x ys row, chosen, found, select_row)
          (ap ((x, v) ∷◌) (select_row-select_row xs ys row))
  ]
  | inr dropped ↦
      rw (dropped, find_column-select_row x ys row, dropped, select_row)
        (select_row-select_row xs ys row)
]

-- Selecting twice is selecting once, by the columns of the second selection that the first one has.
pub select-select :
    (xs ys : List Text) (t : Table)
    → select xs (select ys t) ≡ select (retain (λ x. elem x ys) xs) t
unfolding select
select-select xs ys t = ap (λ rows. record { rows = rows }) (go t.rows)
  where
    go :
        (rows : List Row)
        → map (select_row xs) (map (select_row ys) rows)
          ≡ map (select_row (retain (λ x. elem x ys) xs)) rows
    go [] = refl
    go (row ∷ rows) = cc (select_row-select_row xs ys row, go rows)

find_column-merge_cell :
    (c k v : Text) (row : Row)
    → find_column c (merge_cell row k v) ≡ (if text_eq k c then some v else find_column c row)
unfolding find_column merge_cell
find_column-merge_cell c k v [] = refl
find_column-merge_cell c k v ((name, old) ∷ row) = elim (Bool-cases (text_eq name k)) [
  | inl same ↦ rw (same, merge_cell, find_column, text_eq_sound name k same) (ground arith)
  | inr other ↦ elim (Bool-cases (text_eq name c)) [
    | inl here ↦ rw (other, merge_cell, find_column, here, text_eq_apart name c k here other) refl
    | inr there ↦ rw (other, merge_cell, find_column, there) (find_column-merge_cell c k v row)
  ]
]

-- The last value that a row gives to a column.
unfoldable pub last_cell : Text → Row → Option Text
last_cell c [] = none
last_cell c ((name, value) ∷ row) = elim (last_cell c row) [
  | none ↦ if text_eq name c then some value else none
  | some later ↦ some later
]

find_column-merge_row :
    (c : Text) (left right : Row)
    → find_column c (merge_row left right)
      ≡ elim (last_cell c right) [ none ↦ find_column c left | some value ↦ some value ]
unfolding merge_row last_cell
find_column-merge_row c left [] = refl
find_column-merge_row c left ((k, v) ∷ right) =
    find_column-merge_row c (merge_cell left k v) right ∙ elim (Option-cases (last_cell c right)) [
      | inl none_later ↦ rw (none_later, find_column-merge_cell c k v left) (ground arith)
      | inr (w, later) ↦ rw later refl
    ]

abbrev pub names : Row → List Text
names row = map (λ e. e.0) row

names-merge_cell :
    (k v : Text) (row : Row)
    → names (merge_cell row k v) ≡ (if elem k (names row) then names row else names row ++ k ∷ [])
unfolding merge_cell elem
names-merge_cell k v [] = refl
names-merge_cell k v ((name, old) ∷ row) = elim (Bool-cases (text_eq name k)) [
  | inl same ↦ rw (same, merge_cell, elem) refl
  | inr other ↦ rw (other, merge_cell, elem, names-merge_cell k v row) (ground arith)
]

names-merge_row : (left right : Row) → names (merge_row left right) ≡ add_columns (names left) right
unfolding merge_row add_columns
names-merge_row left [] = refl
names-merge_row left ((k, v) ∷ right) =
    names-merge_row (merge_cell left k v) right
    ∙ ap (λ columns. add_columns columns right) (names-merge_cell k v left)

-- The columns of the left row and then the new ones of the right, in each the right row's last
-- value if it has one, and otherwise the left row's.
pub record IsMerged (left right merged : Row) : Type 0 where
  pub columns : names merged ≡ add_columns (names left) right
  pub value :
      (c : Text)
      → find_column c merged
        ≡ elim (last_cell c right) [ none ↦ find_column c left | some value ↦ some value ]

merge_rows-IsMerged :
    (i : ℕ) (ls rs : List Row) (l r : Row)
    → get_elem? ls i ≡ some l
    → get_elem? rs i ≡ some r
    → (m : Row) × (get_elem? (merge_rows ls rs) i ≡ some m) × IsMerged l r m
unfolding merge_rows
merge_rows-IsMerged i [] rs l r at_l at_r = cc
merge_rows-IsMerged i (x ∷ ls) [] l r at_l at_r = cc
merge_rows-IsMerged zero (x ∷ ls) (y ∷ rs) l r at_l at_r = (
  merge_row l r,
  cc,
  record { columns = names-merge_row l r; value = λ c. find_column-merge_row c l r },
)
merge_rows-IsMerged (suc i) (x ∷ ls) (y ∷ rs) l r at_l at_r =
    merge_rows-IsMerged i ls rs l r at_l at_r

length-merge_rows : (ls rs : List Row) → length (merge_rows ls rs) ≡ length ls
unfolding merge_rows
length-merge_rows [] rs = refl
length-merge_rows (l ∷ ls) [] = refl
length-merge_rows (l ∷ ls) (r ∷ rs) = omega (arith, length-merge_rows ls rs)

-- Tables merge exactly if they have as many rows; the result then has as many too, and at each
-- place the rows of the two tables merged.
pub merge-IsMerged :
    (left right : Table)
    → (((t : Table) × (merge left right ≡ ok t)) ↔ (length left.rows ≡ length right.rows))
      × ((t : Table)
          → merge left right ≡ ok t
          → (length t.rows ≡ length left.rows)
            × ((i : ℕ) (l r : Row)
                → get_elem? left.rows i ≡ some l
                → get_elem? right.rows i ≡ some r
                → (m : Row) × (get_elem? t.rows i ≡ some m) × IsMerged l r m))
unfolding merge
merge-IsMerged left right = elim (Bool-cases (length left.rows == length right.rows)) [
  | inl same ↦ (
    (λ _. (==_iff _ _).0 same, λ _. (merged, rw same refl)),
    λ t answer.
        let ran : merge left right ≡ ok merged = rw same refl in
        let at : merged ≡ t = cc (ran, answer) in
        subst
          (λ t.
            (length t.rows ≡ length left.rows)
            × ((i : ℕ) (l r : Row)
                → get_elem? left.rows i ≡ some l
                → get_elem? right.rows i ≡ some r
                → (m : Row) × (get_elem? t.rows i ≡ some m) × IsMerged l r m))
          at
          (
            length-merge_rows left.rows right.rows,
            λ i l r. merge_rows-IsMerged i left.rows right.rows l r,
          ),
  )
  | inr apart ↦ (
    (λ h. absurd (ground (arith, apart, h.1)), λ h. absurd (ground (arith, apart, h))),
    λ t answer. absurd (ground (arith, apart, answer)),
  )
]
  where
    merged : Table
    merged = record { rows = merge_rows left.rows right.rows }
