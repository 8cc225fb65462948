-- ===== src/Table/Csv/Columns.antt =====
-- The columns of a table that `columns` of src/table.rs collects, by an independent description.
use mathlib.Core.List.{append_assoc, append-nil}
use ion_win.Base.{
  ◌≡◌, refl, sym, ◌∙◌, ap, subst, inl, inr, Bool, true, not, ◌&&◌, ◌||◌, List, [], ◌∷◌, ◌++◌, Text,
  text_eq, text_eq_sound, retain, Bool-cases, arith, if◌then◌else◌,
}
use ion_win.Table.{Row, Table, elem}
use ion_win.Table.Laws.{names}
use ion_win.Table.Csv.{add_columns, collect_columns, columns_of}

-- Every text once, where it stands first.
unfoldable pub first_seen : List Text → List Text
first_seen [] = []
first_seen (x ∷ xs) = x ∷ retain (λ y. not (text_eq x y)) (first_seen xs)

-- The names of all the cells of the rows.
abbrev pub all_names : List Row → List Text
all_names [] = []
all_names (row ∷ rows) = names row ++ all_names rows

pub elem-push :
    (m n : Text) (acc : List Text) → elem m (acc ++ n ∷ []) ≡ (elem m acc || text_eq n m)
unfolding elem
elem-push m n [] = ground arith
elem-push m n (a ∷ acc) = ground (arith, elem-push m n acc)

retain-retain :
    (p q r : Text → Bool)
    → ((x : Text) → r x ≡ (q x && p x))
    → (xs : List Text) → retain p (retain q xs) ≡ retain r xs
retain-retain p q r h [] = refl
retain-retain p q r h (x ∷ xs) = elim (Bool-cases (q x)) [
  | inl e ↦ elim (Bool-cases (p x)) [
    | inl f ↦ rw (e, h x, e, f) (ap (x ∷◌) (retain-retain p q r h xs))
    | inr f ↦ rw (e, h x, e, f) (retain-retain p q r h xs)
  ]
  | inr e ↦ rw (e, h x, e) (retain-retain p q r h xs)
]

retain-all : (p : Text → Bool) → ((x : Text) → p x ≡ true) → (xs : List Text) → retain p xs ≡ xs
retain-all p h [] = refl
retain-all p h (x ∷ xs) = rw (h x) (ap (x ∷◌) (retain-all p h xs))

abbrev is_new : List Text → Text → Bool
is_new columns name = not (elem name columns)

-- The columns so far, and the new ones among the names.
abbrev with_names : List Text → List Text → List Text
with_names columns ns = columns ++ retain (is_new columns) (first_seen ns)

old_name :
    (columns : List Text) (n : Text)
    → elem n columns ≡ true
    → (x : Text) → is_new columns x ≡ (not (text_eq n x) && is_new columns x)
old_name columns n e x = elim (Bool-cases (text_eq n x)) [
  | inl same ↦
      let known : elem x columns ≡ true =
        subst (λ m. elem m columns ≡ true) (text_eq_sound n x same) e in
      rw (known, same) refl
  | inr apart ↦ rw apart refl
]

new_name :
    (columns : List Text) (n x : Text)
    → is_new (columns ++ n ∷ []) x ≡ (not (text_eq n x) && is_new columns x)
new_name columns n x = rw (elem-push x n columns) (ground arith)

with_names-cons :
    (columns : List Text) (n : Text) (ns : List Text)
    → with_names columns (n ∷ ns)
      ≡ with_names (if elem n columns then columns else columns ++ n ∷ []) ns
unfolding first_seen
with_names-cons columns n ns = elim (Bool-cases (elem n columns)) [
  | inl e ↦ rw e (
      ap (λ t. columns ++ t)
        (retain-retain (is_new columns) (λ y. not (text_eq n y)) (is_new columns)
          (old_name columns n e) (first_seen ns)))
  | inr e ↦ rw e (
      ap (λ t. columns ++ (n ∷ t))
        (retain-retain (is_new columns) (λ y. not (text_eq n y)) (is_new (columns ++ n ∷ []))
          (new_name columns n) (first_seen ns))
      ∙ sym (append_assoc columns (n ∷ []) (retain (is_new (columns ++ n ∷ [])) (first_seen ns))))
]

with_names-row :
    (columns : List Text) (row : Row) (ns : List Text)
    → with_names columns (names row ++ ns) ≡ with_names (add_columns columns row) ns
unfolding add_columns
with_names-row columns [] ns = refl
with_names-row columns ((n, v) ∷ row) ns =
    with_names-cons columns n (names row ++ ns)
    ∙ with_names-row (if elem n columns then columns else columns ++ n ∷ []) row ns

collect_columns-with_names :
    (columns : List Text) (rows : List Row)
    → collect_columns columns rows ≡ with_names columns (all_names rows)
unfolding collect_columns first_seen
collect_columns-with_names columns [] = sym (append-nil columns)
collect_columns-with_names columns (row ∷ rows) =
    collect_columns-with_names (add_columns columns row) rows
    ∙ sym (with_names-row columns row (all_names rows))

-- The columns are the names of all cells of all rows, each where it is first seen.
pub columns_of-first_seen : (t : Table) → columns_of t ≡ first_seen (all_names t.rows)
unfolding elem
columns_of-first_seen t =
    collect_columns-with_names [] t.rows
    ∙ retain-all (is_new []) (λ x. refl) (first_seen (all_names t.rows))
