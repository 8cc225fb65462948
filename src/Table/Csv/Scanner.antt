-- ===== src/Table/Csv/Scanner.antt =====
-- What the scanner of src/table.rs does on a field, a record and a list of records that `to_csv`
-- wrote.
use ion_win.Base.{
  ℕ, ◌≡◌, refl, ◌∙◌, ap, inl, inr, Bool, true, false, not, ◌||◌, List, [], ◌∷◌, ◌++◌, map, Text,
  contains, join, ==_iff, ◌==◌, Bool-cases, arith,
}
use mathlib.Core.List.{append_assoc, append-nil}
use ion_win.Table.Csv.{
  comma, quote, newline, carriage_return, double_quotes, needs_quotes, csv_escape, Scan, scan_char,
  scan,
}

-- Between two characters, outside quotes or inside.
abbrev pub at : List (List Text) → List Text → Text → Bool → Scan
at records current field in_quotes = record {
  records = records;
  current = current;
  field = field;
  in_quotes = in_quotes;
}

pub scan_outside :
    (c : ℕ) (text : Text) (rs : List (List Text)) (fs : List Text) (f : Text)
    → scan (c ∷ text) (at rs fs f false) ≡ scan text (scan_char c (at rs fs f false))
unfolding scan
scan_outside c [] rs fs f = refl
scan_outside c (d ∷ text) rs fs f = refl

abbrev plain : ℕ → Bool
plain c = not (c == comma || (c == quote || (c == newline || c == carriage_return)))

scan_char-plain :
    (c : ℕ) (rs : List (List Text)) (fs : List Text) (f : Text)
    → plain c ≡ true
    → scan_char c (at rs fs f false) ≡ at rs fs (f ++ c ∷ []) false
unfolding scan_char
scan_char-plain c rs fs f h = ground arith

needs_quotes-cons :
    (c : ℕ) (text : Text)
    → needs_quotes (c ∷ text) ≡ false
    → (plain c ≡ true) × (needs_quotes text ≡ false)
unfolding needs_quotes contains
needs_quotes-cons c text h = ground arith

scan_plain :
    (field rest : Text) (rs : List (List Text)) (fs : List Text) (f : Text)
    → needs_quotes field ≡ false
    → scan (field ++ rest) (at rs fs f false) ≡ scan rest (at rs fs (f ++ field) false)
scan_plain [] rest rs fs f h = rw (append-nil f) refl
scan_plain (c ∷ field) rest rs fs f h =
    let split = needs_quotes-cons c field h in
    scan_outside c (field ++ rest) rs fs f
    ∙ ap (scan (field ++ rest)) (scan_char-plain c rs fs f split.0)
    ∙ scan_plain field rest rs fs (f ++ c ∷ []) split.1
    ∙ rw (append_assoc f (c ∷ []) field) refl

scan_char_inside :
    (c : ℕ) (rs : List (List Text)) (fs : List Text) (f : Text)
    → (c == quote) ≡ false
    → scan_char c (at rs fs f true) ≡ at rs fs (f ++ c ∷ []) true
unfolding scan_char
scan_char_inside c rs fs f h = rw h refl

scan_inside :
    (c : ℕ) (text : Text) (rs : List (List Text)) (fs : List Text) (f : Text)
    → (c == quote) ≡ false
    → scan (c ∷ text) (at rs fs f true) ≡ scan text (at rs fs (f ++ c ∷ []) true)
unfolding scan
scan_inside c [] rs fs f h = scan_char_inside c rs fs f h
scan_inside c (d ∷ text) rs fs f h =
    rw (h, scan) (ap (scan (d ∷ text)) (scan_char_inside c rs fs f h))

-- The text of a quoted field, up to its closing quote and the character after it.
scan_quoted :
    (field : Text) (d : ℕ) (rest : Text) (rs : List (List Text)) (fs : List Text) (f : Text)
    → (d == quote) ≡ false
    → scan (double_quotes field ++ quote ∷ d ∷ rest) (at rs fs f true)
      ≡ scan (d ∷ rest) (at rs fs (f ++ field) false)
unfolding double_quotes scan scan_char
scan_quoted [] d rest rs fs f h = rw (h, append-nil f, scan, scan_char) refl
scan_quoted (c ∷ field) d rest rs fs f h = elim (Bool-cases (c == quote)) [
  | inl e ↦
      rw (e, double_quotes, scan)
        (scan_quoted field d rest rs fs (f ++ quote ∷ []) h
          ∙ rw (append_assoc f (quote ∷ []) field, (==_iff c quote).0 e) refl)
  | inr e ↦
      rw (e, double_quotes)
        (scan_inside c (double_quotes field ++ quote ∷ d ∷ rest) rs fs f e
          ∙ scan_quoted field d rest rs fs (f ++ c ∷ []) h
          ∙ rw (append_assoc f (c ∷ []) field) refl)
]

-- A field that `csv_escape` wrote, up to the comma or the newline behind it.
pub scan-csv_escape :
    (field : Text) (d : ℕ) (rest : Text) (rs : List (List Text)) (fs : List Text)
    → (d == quote) ≡ false
    → scan (csv_escape field ++ d ∷ rest) (at rs fs [] false)
      ≡ scan (d ∷ rest) (at rs fs field false)
unfolding csv_escape scan_char
scan-csv_escape field d rest rs fs h = elim (Bool-cases (needs_quotes field)) [
  | inl e ↦
      rw (e, append_assoc (double_quotes field) (quote ∷ []) (d ∷ rest))
        (scan_outside quote (double_quotes field ++ quote ∷ d ∷ rest) rs fs []
          ∙ scan_quoted field d rest rs fs [] h)
  | inr e ↦ rw e (scan_plain field (d ∷ rest) rs fs [] e)
]

-- A record that was written, with its newline.
pub scan-join :
    (field : Text) (fields : List Text) (rest : Text) (rs : List (List Text)) (fs : List Text)
    → scan
        (join (comma ∷ []) (map csv_escape (field ∷ fields)) ++ newline ∷ rest)
        (at rs fs [] false)
      ≡ scan rest (at (rs ++ (fs ++ field ∷ fields) ∷ []) [] [] false)
unfolding join scan_char
scan-join field [] rest rs fs =
    scan-csv_escape field newline rest rs fs refl ∙ scan_outside newline rest rs fs field
scan-join field (next ∷ fields) rest rs fs =
    let tail = join (comma ∷ []) (map csv_escape (next ∷ fields)) in
    rw (append_assoc (csv_escape field) (comma ∷ tail) (newline ∷ rest)) (
      scan-csv_escape field comma (tail ++ newline ∷ rest) rs fs refl
      ∙ scan_outside comma (tail ++ newline ∷ rest) rs fs field
      ∙ scan-join next fields rest rs (fs ++ field ∷ [])
      ∙ rw (append_assoc fs (field ∷ []) (next ∷ fields)) refl)
