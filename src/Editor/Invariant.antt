-- ===== src/Editor/Invariant.antt =====
-- What holds of the editor of src/editor.rs between two events, whatever the events are.
pub mod Commands
use ion_win.Base.{
  subst, ℕ, zero, suc, ◌+◌, ◌-◌, ◌≤◌, ◌<◌, ◌≡◌, refl, sym, ◌∙◌, ap, ◌≢◌, inl, inr, Bool, true,
  false, not, ◌&&◌, Option, none, some, List, [], ◌∷◌, ◌++◌, Text, if◌then◌else◌, ◌==◌, ltb, leb,
  length, take, drop, get_elem?, is_empty, length-append, length-take, Bool-cases, ℕ-cases,
  Option-cases, arith,
}
use ion_win.Editor.Buffer.{◌>>=◌, Line, slice, Segmentation, selection_range, selected_text}
use ion_win.Editor.Bounds.{
  InBounds, AnchorOk, Cuts, Safe, Safe-bind, slice-Safe, IsDeleted, selection_range-RangeOk,
  RangeOk, delete_selection-Safe, insert_text-Safe, IsDeleted-InBounds,
}
use ion_win.Editor.Actions.{
  eof, line, aborted, with_line, EditorOutcome, KeyCode, tab, KeyModifiers, Event, key, paste,
  ignored, read_error, Host, Session, Editor, Reply, again, done, fresh, empty_line, with_line,
  redraw, Command, submit, copy, cut, paste_clipboard, eof_or_delete, kill_to_start, kill_to_end,
  erase_word, cancel, complete_tab, erase_back, erase_forward, older, newer, skip, extend, move,
  insert, command_of, control_command, line_command,
}
use ion_win.Editor.Keys.{
  cleared, older_entry, newer_entry, copy_line, cut_line, cancel_line, perform, handle, recalled,
  Run, crashed, waiting, finished, run, run_editor,
}
use ion_win.Editor.Invariant.Commands.{line_command-Safe, cut_line-Safe, tab_line-InBounds}
use ion_win.Editor.Bounds.Moves.{get_elem?-Safe}

pub record IsValid (session : Session) (s : Editor) : Type 0 where
  pub line : InBounds s.line
  pub index : s.history_index ≤ length session.history

-- A reply that leaves the editor going leaves it in a valid state.
abbrev pub GoesOn : Session → Reply → Type 0
GoesOn session (again s) = IsValid session s
GoesOn session (done outcome) = Unit

pub empty_line-InBounds : InBounds empty_line
empty_line-InBounds = record { cursor = omega arith; anchor = tt }

module _ (session : Session) where
  pub redraw-Safe : (s : Editor) → IsValid session s → Safe (redraw s) (GoesOn session)
  unfolding redraw
  redraw-Safe s v =
      Safe-bind (slice 0 (s.line).cursor_pos (s.line).buffer) _ _ _
        (slice-Safe 0 (s.line).cursor_pos (s.line).buffer (omega arith) (v.line).cursor)
        (λ before n. (again s, refl, v))

  pub with_line-Safe :
      (s : Editor) (m : Option Line)
      → s.history_index ≤ length session.history
      → Safe m InBounds
      → Safe (m >>= (λ l. redraw (with_line s l))) (GoesOn session)
  with_line-Safe s m h safe =
      Safe-bind m _ _ _ safe (λ l v. redraw-Safe (with_line s l) (record { line = v; index = h }))

  pub cleared-Safe : (s : Editor) → Safe (redraw (cleared session s)) (GoesOn session)
  cleared-Safe s =
      redraw-Safe (cleared session s) (record { line = empty_line-InBounds; index = omega arith })

  recalled-InBounds : (text : Text) → InBounds (recalled text)
  recalled-InBounds text = record { cursor = omega arith; anchor = tt }

  older_entry-Safe :
      (s : Editor) → IsValid session s → Safe (older_entry session s) (IsValid session)
  unfolding older_entry
  older_entry-Safe s v = elim (ℕ-cases s.history_index) [
    | inl e ↦ rw (older_entry, e) (s, refl, v)
    | inr (i, e) ↦
        rw (older_entry, e)
          (Safe-bind (get_elem? session.history i) _ _ _
            (get_elem?-Safe session.history i (omega (arith, e, v.index)))
            (λ text _. (
              _,
              refl,
              record { line = recalled-InBounds text; index = omega (arith, e, v.index) },
            )))
  ]

  newer_entry-Safe :
      (s : Editor) → IsValid session s → Safe (newer_entry session s) (IsValid session)
  unfolding newer_entry
  newer_entry-Safe s v = elim (Bool-cases (ltb s.history_index (length session.history))) [
    | inr e ↦ rw e (s, refl, v)
    | inl e ↦ elim (Bool-cases (s.history_index + 1 == length session.history)) [
      | inl f ↦
          rw (e, f)
            (_, refl, record { line = recalled-InBounds s.saved_current; index = ground arith })
      | inr f ↦
          rw (e, f)
            (Safe-bind (get_elem? session.history (s.history_index + 1)) _ _ _
              (get_elem?-Safe session.history (s.history_index + 1) (ground arith))
              (λ text _. (_, refl, record { line = recalled-InBounds text; index = ground arith })))
    ]
  ]

  selected_text-Safe : (l : Line) → InBounds l → Safe (selected_text l) (λ text. Unit)
  unfolding selected_text
  selected_text-Safe l v = elim (Option-cases (selection_range l.selection_anchor l.cursor_pos)) [
    | inl e ↦ rw (selected_text, e) (none, refl, tt)
    | inr ((start, end), e) ↦
        let (lo, hi) = subst (RangeOk (length l.buffer)) e (
          selection_range-RangeOk (length l.buffer) l.selection_anchor l.cursor_pos v.anchor
            v.cursor) in
        rw (selected_text, e)
          (Safe-bind (slice start end l.buffer) _ _ _
            (slice-Safe start end l.buffer (omega (arith, lo)) hi)
            (λ text n. (some text, refl, tt)))
  ]

  copy_line-Safe :
      (text : Option Text) (s : Editor)
      → IsValid session s
      → Safe (copy_line session text s) (GoesOn session)
  unfolding copy_line
  copy_line-Safe none s v = cleared-Safe s
  copy_line-Safe (some text) s v = (again s, refl, v)

  cancel_line-Safe :
      (s : Editor) → IsValid session s → Safe (cancel_line session s) (GoesOn session)
  unfolding cancel_line
  cancel_line-Safe s v = elim (Option-cases (s.line).selection_anchor) [
    | inr (a, e) ↦
        rw (cancel_line, e)
          (redraw-Safe _
            (record { line = record { cursor = (v.line).cursor; anchor = tt }; index = v.index }))
    | inl e ↦ elim (Bool-cases (session.allow_abort && is_empty (s.line).buffer)) [
      | inl f ↦ rw (cancel_line, e, f) (done aborted, refl, tt)
      | inr f ↦ rw (cancel_line, e, f) (cleared-Safe s)
    ]
  ]

  module _ (cuts : Cuts session.seg) where
    -- The commands that change the line only.
    edit-Safe :
        (host : Host) (command : Command) (s : Editor)
        → command ≢ complete_tab
        → IsValid session s
        → Safe
            (line_command session.seg host command s.line >>= (λ l. redraw (with_line s l)))
            (GoesOn session)
    edit-Safe host command s n v =
        with_line-Safe s _ v.index (line_command-Safe session.seg cuts host command s.line n v.line)

    pub perform-Safe :
        (host : Host) (command : Command) (s : Editor)
        → command ≢ complete_tab
        → IsValid session s
        → Safe (perform session host command s) (GoesOn session)
    unfolding perform
    perform-Safe host submit s n v = (done (line (s.line).buffer), refl, tt)
    perform-Safe host copy s n v =
        Safe-bind (selected_text s.line) _ _ _ (selected_text-Safe s.line v.line)
          (λ text _. copy_line-Safe text s v)
    perform-Safe host cut s n v =
        Safe-bind (selected_text s.line) _ _ _ (selected_text-Safe s.line v.line)
          (λ text _. with_line-Safe s _ v.index (cut_line-Safe host text s.line v.line))
    perform-Safe host cancel s n v = cancel_line-Safe s v
    perform-Safe host older s n v =
        Safe-bind (older_entry session s) _ _ _ (older_entry-Safe s v) redraw-Safe
    perform-Safe host newer s n v =
        Safe-bind (newer_entry session s) _ _ _ (newer_entry-Safe s v) redraw-Safe
    perform-Safe host skip s n v = (again s, refl, v)
    perform-Safe host eof_or_delete s n v = elim (Bool-cases (is_empty (s.line).buffer)) [
      | inl e ↦ rw e (done eof, refl, tt)
      | inr e ↦ rw e (edit-Safe host eof_or_delete s n v)
    ]
    perform-Safe host complete_tab s n v = absurd (n refl)
    perform-Safe host command s n v = edit-Safe host command s n v
