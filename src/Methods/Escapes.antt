-- ===== src/Methods/Escapes.antt =====
-- Round trips of methods of src/methods.rs: `escape` with `unescape`, `join` with `lines`.
use ion_win.Base.{
  ℕ, ◌≡◌, refl, ◌∙◌, ap, inl, inr, false, List, [], ◌∷◌, ◌++◌, Text, join, contains, ok, ◌==◌,
  ==_iff, Bool-cases, All, arith, codes,
}
use mathlib.Core.List.{append_assoc, append-nil}
use ion_win.Methods.{
  MethodArg, str, arr, as_str, as_array, arg_str, arg_arr, backslash, escape_char, escape_text,
  unescape_char, unescape_text, escape, unescape, join_texts, split_lines, lines,
}

unescape_text-pair :
    (d : ℕ) (s : Text) → unescape_text (backslash ∷ d ∷ s) ≡ unescape_char d ++ unescape_text s
unfolding unescape_text
unescape_text-pair d s = refl

unescape_text-plain :
    (c : ℕ) (s : Text) → (c == backslash) ≡ false → unescape_text (c ∷ s) ≡ c ∷ unescape_text s
unfolding unescape_text
unescape_text-plain c [] h = refl
unescape_text-plain c (d ∷ s) h = rw (h, unescape_text) refl

unescape_text-escape_char :
    (c : ℕ) (s : Text) → unescape_text (escape_char c ++ s) ≡ c ∷ unescape_text s
unfolding escape_char unescape_char unescape_text
unescape_text-escape_char c s = elim (Bool-cases (c == backslash)) [
  | inl same ↦ rw ((==_iff c 92).0 same) refl
  | inr not_backslash ↦ elim (Bool-cases (c == 10)) [
    | inl same ↦ rw ((==_iff c 10).0 same) refl
    | inr not_newline ↦ elim (Bool-cases (c == 9)) [
      | inl same ↦ rw ((==_iff c 9).0 same) refl
      | inr not_tab ↦ elim (Bool-cases (c == 13)) [
        | inl same ↦ rw ((==_iff c 13).0 same) refl
        | inr not_return ↦
            rw (not_backslash, not_newline, not_tab, not_return, escape_char)
              (unescape_text-plain c s not_backslash)
      ]
    ]
  ]
]

unescape_text-escape_text : (s : Text) → unescape_text (escape_text s) ≡ s
unfolding escape_text unescape_text
unescape_text-escape_text [] = refl
unescape_text-escape_text (c ∷ s) =
    unescape_text-escape_char c (escape_text s) ∙ ap (c ∷◌) (unescape_text-escape_text s)

-- A text that is escaped and then unescaped is the text again; an array counts as its text.
pub unescape-escape :
    (a : MethodArg) (rest more : List MethodArg)
    → (s : Text) × (escape (a ∷ rest) ≡ ok s) × (unescape (str s ∷ more) ≡ ok (as_str a))
unfolding escape unescape arg_str as_str
unescape-escape a rest more =
    (escape_text (as_str a), refl, ap ok (unescape_text-escape_text (as_str a)))

split_lines-line :
    (line part s : Text)
    → contains part 10 ≡ false
    → split_lines line (part ++ 10 ∷ s) ≡ (line ++ part) ∷ split_lines [] s
unfolding split_lines contains
split_lines-line line [] s h = rw (append-nil line) refl
split_lines-line line (c ∷ part) s h =
    let kept : (c == 10) ≡ false = ground (arith, h) in
    rw (kept, split_lines)
      (split_lines-line (line ++ c ∷ []) part s (ground (arith, h))
        ∙ rw (append_assoc line (c ∷ []) part) refl)

split_lines-last :
    (line part : Text) → contains part 10 ≡ false → split_lines line part ≡ (line ++ part) ∷ []
unfolding split_lines contains
split_lines-last line [] h = rw (append-nil line) refl
split_lines-last line (c ∷ part) h =
    let kept : (c == 10) ≡ false = ground (arith, h) in
    rw (kept, split_lines)
      (split_lines-last (line ++ c ∷ []) part (ground (arith, h))
        ∙ rw (append_assoc line (c ∷ []) part) refl)

abbrev pub IsLine : Text → Type 0
IsLine s = contains s 10 ≡ false

split_lines-join :
    (item : Text) (items : List Text)
    → All IsLine (item ∷ items)
    → split_lines [] (join (10 ∷ []) (item ∷ items)) ≡ item ∷ items
unfolding join
split_lines-join item [] h = split_lines-last [] item h.0
split_lines-join item (next ∷ items) h =
    split_lines-line [] item (join (10 ∷ []) (next ∷ items)) h.0
    ∙ ap (item ∷◌) (split_lines-join next items h.1)

-- An array that is not empty and whose items have no newline comes back from the text that
-- `join` makes of it with newlines, by `lines`.
pub lines-join_texts :
    (item : Text) (items : List Text) (more : List MethodArg)
    → All IsLine (item ∷ items)
    → (s : Text) × (join_texts (arr (item ∷ items) ∷ str (codes "\n") ∷ []) ≡ ok s)
      × (lines (str s ∷ more) ≡ ok (item ∷ items))
unfolding join_texts lines arg_arr arg_str as_str as_array
lines-join_texts item items more h =
    (join (10 ∷ []) (item ∷ items), refl, ap ok (split_lines-join item items h))
