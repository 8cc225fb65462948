-- ===== src/Editor/Invariant/Commands.antt =====
-- The commands of src/editor.rs that change the line keep the cursor and the anchor in bounds.
use ion_win.Base.{
  subst, ℕ, ◌≤◌, ◌≡◌, refl, inl, inr, Bool, Option, none, some, List, [], ◌∷◌, ◌++◌, Text,
  if◌then◌else◌, ◌==◌, length, take, drop, length-append, length-take, Bool-cases, Option-cases,
  text_eq, is_empty, arith, ◌≢◌,
}
use ion_win.Editor.Buffer.{
  ◌>>=◌, Line, slice, drain, extend_selection, or_else, Segmentation, single_line_clipboard_text,
  delete_selection, prev_word_boundary, next_word_boundary, delete_previous_grapheme,
  delete_next_grapheme,
}
use ion_win.Editor.Bounds.{
  InBounds, AnchorOk, Cuts, Safe, Safe-bind, drain-Safe, IsDeleted, IsDeleted-InBounds,
  delete_selection-Safe, insert_text-Safe,
}
use ion_win.Editor.Bounds.Moves.{
  prev_word_boundary-Safe, next_word_boundary_bounds, prev_grapheme_boundary-Safe,
  next_grapheme_boundary-Safe, delete_previous_grapheme-Safe, delete_next_grapheme-Safe,
}
use ion_win.Editor.Complete.{
  complete, complete_word, completed, completion_of, Word, split_at, token_start, rfind_space,
}
use ion_win.Editor.Actions.{
  Host, Motion, word_left, word_right, grapheme_left, grapheme_right, line_start, line_end,
  destination, Command, paste_clipboard, eof_or_delete, kill_to_start, kill_to_end, erase_word,
  complete_tab, erase_back, erase_forward, extend, move, insert, line_command, or_selection,
  erase_from, erase_word_back, truncate, tab_line, adopt,
}
use ion_win.Editor.Keys.{cut_line}

or_selection-Safe :
    (edit : Line → Option Line) (l : Line)
    → ((d : Line) → IsDeleted d → Safe (edit d) InBounds)
    → InBounds l
    → Safe (or_selection edit l) InBounds
or_selection-Safe edit l next v =
    Safe-bind (delete_selection l) _ _ _ (delete_selection-Safe l v) (λ (d, b) w.
      elim (Bool-cases b) [
        | inl e ↦ rw e (d, refl, IsDeleted-InBounds d w)
        | inr e ↦ rw e (next d w)
      ])

erase_from-Safe :
    (start : ℕ) (l : Line) → start ≤ l.cursor_pos → IsDeleted l → Safe (erase_from start l) InBounds
unfolding erase_from
erase_from-Safe start l below w =
    Safe-bind (drain start l.cursor_pos l.buffer) _ _ _
      (drain-Safe start l.cursor_pos l.buffer below w.cursor)
      (λ rest (e, n). (
        record l { buffer = rest; cursor_pos = start },
        refl,
        record { cursor = omega (arith, n, below, w.cursor); anchor = rw w.clear tt },
      ))

erase_word_back-Safe : (l : Line) → IsDeleted l → Safe (erase_word_back l) InBounds
unfolding erase_word_back
erase_word_back-Safe l w =
    Safe-bind (prev_word_boundary l.buffer l.cursor_pos) _ _ _
      (prev_word_boundary-Safe l.buffer l.cursor_pos w.cursor)
      (λ start below. erase_from-Safe start l below w)

truncate-Safe : (l : Line) → IsDeleted l → Safe (truncate l) InBounds
unfolding truncate
truncate-Safe l w = (
  record l { buffer = take l.cursor_pos l.buffer },
  refl,
  record {
    cursor = omega (arith, length-take l.cursor_pos l.buffer, w.cursor);
    anchor = rw w.clear tt;
  },
)

extend_selection-InBounds :
    (target : ℕ) (l : Line)
    → target ≤ length l.buffer
    → InBounds l
    → InBounds (extend_selection target l)
unfolding extend_selection
extend_selection-InBounds target l h v = record {
  cursor = h;
  anchor = go l.selection_anchor v.anchor;
}
  where
    kept :
        (a : ℕ)
        → a ≤ length l.buffer
        → AnchorOk (length l.buffer) (if a == target then none else some a)
    kept a below = elim (Bool-cases (a == target)) [ inl e ↦ rw e tt | inr e ↦ rw e below ]

    go :
        (anchor : Option ℕ)
        → AnchorOk (length l.buffer) anchor
        → AnchorOk (length l.buffer) (
            if or_else anchor l.cursor_pos == target
            then none
            else some (or_else anchor l.cursor_pos))
    go none below = kept l.cursor_pos v.cursor
    go (some a) below = kept a below

module _ (seg : Segmentation) (cuts : Cuts seg) where
  destination-Safe :
      (motion : Motion) (l : Line)
      → l.cursor_pos ≤ length l.buffer
      → Safe (destination seg motion l) (λ j. j ≤ length l.buffer)
  unfolding destination
  destination-Safe word_left l h =
      let (j, e, below) = prev_word_boundary-Safe l.buffer l.cursor_pos h in
      (j, e, omega (arith, below, h))
  destination-Safe word_right l h = (
    next_word_boundary l.buffer l.cursor_pos,
    refl,
    (next_word_boundary_bounds l.buffer l.cursor_pos h).1,
  )
  destination-Safe grapheme_left l h =
      let (j, e, below) = prev_grapheme_boundary-Safe seg cuts l.buffer l.cursor_pos h in
      (j, e, omega (arith, below, h))
  destination-Safe grapheme_right l h =
      let (j, e, (lo, hi)) = next_grapheme_boundary-Safe seg cuts l.buffer l.cursor_pos h in
      (j, e, hi)
  destination-Safe line_start l h = (0, refl, omega arith)
  destination-Safe line_end l h = (length l.buffer, refl, omega arith)

  -- Every command but completion.
  pub line_command-Safe :
      (host : Host) (command : Command) (l : Line)
      → command ≢ complete_tab
      → InBounds l
      → Safe (line_command seg host command l) InBounds
  unfolding line_command
  line_command-Safe host kill_to_start l n v =
      or_selection-Safe (erase_from 0) l (λ d w. erase_from-Safe 0 d (omega arith) w) v
  line_command-Safe host kill_to_end l n v = or_selection-Safe truncate l truncate-Safe v
  line_command-Safe host erase_word l n v =
      or_selection-Safe erase_word_back l erase_word_back-Safe v
  line_command-Safe host erase_back l n v =
      or_selection-Safe (delete_previous_grapheme seg) l
        (λ d w. delete_previous_grapheme-Safe seg cuts d w.cursor w.clear) v
  line_command-Safe host erase_forward l n v =
      or_selection-Safe (delete_next_grapheme seg) l
        (λ d w. delete_next_grapheme-Safe seg cuts d w.cursor w.clear) v
  line_command-Safe host eof_or_delete l n v =
      or_selection-Safe (delete_next_grapheme seg) l
        (λ d w. delete_next_grapheme-Safe seg cuts d w.cursor w.clear) v
  line_command-Safe host complete_tab l n v = absurd (n refl)
  line_command-Safe host (insert c) l n v = insert_text-Safe (c ∷ []) l v
  line_command-Safe host (extend motion) l n v =
      Safe-bind (destination seg motion l) _ _ _ (destination-Safe motion l v.cursor)
        (λ target h. (extend_selection target l, refl, extend_selection-InBounds target l h v))
  line_command-Safe host (move motion) l n v =
      Safe-bind (destination seg motion l) _ _ _ (destination-Safe motion l v.cursor) (λ target h. (
        record l { cursor_pos = target; selection_anchor = none },
        refl,
        record { cursor = h; anchor = tt },
      ))
  line_command-Safe host paste_clipboard l n v = elim (Option-cases host.read_text) [
    | inl e ↦ rw e (l, refl, v)
    | inr (text, e) ↦ rw e (insert_text-Safe (single_line_clipboard_text text) l v)
  ]
  line_command-Safe host _ l n v = (l, refl, v)

pub cut_line-Safe :
    (host : Host) (text : Option Text) (l : Line)
    → InBounds l
    → Safe (cut_line host text l) InBounds
unfolding cut_line
cut_line-Safe host none l v = (l, refl, v)
cut_line-Safe host (some text) l v = elim (Bool-cases host.write_ok) [
  | inl e ↦
      rw (e, cut_line)
        (Safe-bind (delete_selection l) _ _ _ (delete_selection-Safe l v)
          (λ d w. (d.0, refl, IsDeleted-InBounds d.0 w)))
  | inr e ↦ rw (e, cut_line) (l, refl, v)
]

pub >>=-some :
    {A B : Type 0} (m : Option A) (f : A → Option B) (b : B)
    → (m >>= f) ≡ some b
    → (a : A) × (m ≡ some a) × (f a ≡ some b)
>>=-some none f b h = absurd (cc h)
>>=-some (some a) f b h = (a, refl, h)

completed-InBounds :
    (w : Word) (suffix : Text) (found : Option Text) (l : Line)
    → IsDeleted l
    → InBounds (adopt l (completed w suffix found))
completed-InBounds w suffix none l v = IsDeleted-InBounds l v
completed-InBounds w suffix (some text) l v = elim (Bool-cases (text_eq text w.token)) [
  | inl e ↦ rw e (IsDeleted-InBounds l v)
  | inr e ↦ rw e (record {
    cursor = omega (arith, length-append w.prefix (text ++ suffix), length-append text suffix);
    anchor = rw v.clear tt;
  })
]

complete_word-InBounds :
    (names : List Text) (path_matches : Text → List Text) (w : Word) (suffix : Text) (l : Line)
    → IsDeleted l
    → InBounds (adopt l (complete_word names path_matches w suffix))
unfolding complete_word
complete_word-InBounds names path_matches w suffix l v = elim (Bool-cases (is_empty w.token)) [
  | inl f ↦ rw f (IsDeleted-InBounds l v)
  | inr f ↦ rw f (completed-InBounds w suffix (completion_of names path_matches w) l v)
]

delete_selection-IsDeleted :
    (l : Line) (d : Line × Bool) → InBounds l → delete_selection l ≡ some d → IsDeleted d.0
delete_selection-IsDeleted l d v e =
    let (d', e', w) = delete_selection-Safe l v in
    let same : d' ≡ d = cc (e, e') in subst (λ x. IsDeleted x.0) same w

-- Completion may panic, but the line it leaves is in bounds.
pub tab_line-InBounds :
    (host : Host) (l l' : Line) → InBounds l → tab_line host l ≡ some l' → InBounds l'
unfolding tab_line complete
tab_line-InBounds host l l' v h =
    let (d, e, rest) = >>=-some (delete_selection l) _ l' h in
    let (found, f, last) =
      >>=-some (complete host.names host.path_matches (d.0).buffer (d.0).cursor_pos) _ l' rest in
    let (before, g, g') = >>=-some (slice 0 (d.0).cursor_pos (d.0).buffer) _ found f in
    let (w, cut, word) = >>=-some (split_at (token_start (rfind_space before)) before) _ found g' in
    let suffix : Text = drop (d.0).cursor_pos (d.0).buffer in
    let same : adopt d.0 (complete_word host.names host.path_matches w suffix) ≡ l' =
      cc (word, last) in
    subst InBounds same (
      complete_word-InBounds host.names host.path_matches w suffix d.0
        (delete_selection-IsDeleted l d v e))
