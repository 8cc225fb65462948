-- ===== src/Editor/Refines/Edits.antt =====
-- The editing keys of src/editor.rs do to the texts around the selection what they are meant to.
use ion_win.Base.{
  arith, ◌≡◌, refl, ◌+◌, length-append, sym, ◌∙◌, ap, inl, inr, Option, none, some, [], ◌++◌, Text,
  if◌then◌else◌, length, is_empty, Bool-cases,
}
use ion_win.Editor.Buffer.{
  Line, insert_text, Segmentation, delete_previous_grapheme, delete_next_grapheme,
}
use ion_win.Editor.Bounds.{InBounds, Cuts, Safe}
use ion_win.Editor.Actions.{Host, line_command, or_selection, erase_from, erase_word_back, truncate}
use ion_win.Editor.Refines.{
  View, view, plain_view, Edit, to_start, to_end, word_back, cluster_back, cluster_forward, erase,
  edit, insert_view, command_for,
}
use ion_win.Editor.Refines.Pieces.{
  line_at, view-line_at, delete_selection-view, splice-line_at, erase_from-line_at,
  truncate-line_at,
}
use ion_win.Editor.Refines.Words.{
  erase_word_back-line_at, delete_previous_grapheme-line_at, delete_next_grapheme-line_at,
}

line_of : View → Line
line_of v = line_at v.before v.after

or_selection-edit :
    (action : Line → Option Line) (erased : Text → Text → View) (l : Line)
    → InBounds l
    → ((before after : Text) → action (line_at before after) ≡ some (line_of (erased before after)))
    → or_selection action l
      ≡ some (
          line_of (
            if is_empty (view l).selected
            then erased (view l).before (view l).after
            else plain_view (view l).before (view l).after))
unfolding line_of
or_selection-edit action erased l v acts = elim (Bool-cases (is_empty (view l).selected)) [
  | inl e ↦ rw (delete_selection-view l v, e) (acts (view l).before (view l).after)
  | inr e ↦ rw (delete_selection-view l v, e) refl
]

module _ (seg : Segmentation) (cuts : Cuts seg) (host : Host) where
  line_command-edit :
      (e : Edit) (l : Line)
      → InBounds l
      → line_command seg host (command_for e) l ≡ some (line_of (edit seg e (view l)))
  unfolding line_command edit erase line_of
  line_command-edit to_start l v =
      or_selection-edit (erase_from 0) (erase seg to_start) l v
        (λ before after. erase_from-line_at 0 before after (omega arith))
  line_command-edit to_end l v = or_selection-edit truncate (erase seg to_end) l v truncate-line_at
  line_command-edit word_back l v =
      or_selection-edit erase_word_back (erase seg word_back) l v erase_word_back-line_at
  line_command-edit cluster_back l v =
      or_selection-edit (delete_previous_grapheme seg) (erase seg cluster_back) l v
        (delete_previous_grapheme-line_at seg cuts)
  line_command-edit cluster_forward l v =
      or_selection-edit (delete_next_grapheme seg) (erase seg cluster_forward) l v
        (delete_next_grapheme-line_at seg cuts)

  erase-selected : (e : Edit) (before after : Text) → (erase seg e before after).selected ≡ []
  unfolding erase
  erase-selected to_start before after = refl
  erase-selected to_end before after = refl
  erase-selected word_back before after = refl
  erase-selected cluster_back before after = refl
  erase-selected cluster_forward before after = refl

  edit-selected : (e : Edit) (v : View) → (edit seg e v).selected ≡ []
  unfolding edit
  edit-selected e v = elim (Bool-cases (is_empty v.selected)) [
    | inl f ↦ rw f (erase-selected e v.before v.after)
    | inr f ↦ rw f refl
  ]

view-line_of : (v : View) → v.selected ≡ [] → view (line_of v) ≡ v
unfolding line_of
view-line_of v e =
    view-line_at v.before v.after
    ∙ ap (λ s. record { before = v.before; selected = s; after = v.after }) (sym e)

-- A line in bounds, and grapheme clusters that lie within their text: a key that erases does what
-- it is meant to. If some text is selected, it is gone and the texts around it are left; if not,
-- the key erases the text before the cursor, the text after it, the word before it with the white
-- space behind that word, or the grapheme cluster before or after it. Nothing is selected then.
pub line_command-view :
    (seg : Segmentation) (host : Host) (e : Edit) (l : Line)
    → Cuts seg
    → InBounds l
    → Safe (line_command seg host (command_for e) l) (λ l'. view l' ≡ edit seg e (view l))
line_command-view seg host e l cuts v = (
  line_of (edit seg e (view l)),
  line_command-edit seg cuts host e l v,
  view-line_of (edit seg e (view l)) (edit-selected seg cuts host e (view l)),
)

-- A line in bounds: a text that is typed or pasted takes the place of the selected text, between
-- the same texts as before, and the cursor stands behind it.
pub insert_text-view :
    (text : Text) (l : Line)
    → InBounds l
    → Safe
        (insert_text text l)
        (λ l'. (view l' ≡ insert_view text (view l)) × (l'.selection_anchor ≡ none))
unfolding insert_text insert_view
insert_text-view text l v =
    let before : Text = (view l).before in
    let after : Text = (view l).after in
    let placed : record {
      buffer = (before ++ text) ++ after;
      cursor_pos = length before + length text;
      selection_anchor = none;
    }
        ≡ line_at (before ++ text) after =
      ap
        (λ n. record {
          buffer = (before ++ text) ++ after;
          cursor_pos = n;
          selection_anchor = none;
        })
        (sym (length-append before text)) in
    (
      line_at (before ++ text) after,
      rw (delete_selection-view l v, splice-line_at before text after) (ap some placed),
      (view-line_at (before ++ text) after, refl),
    )
