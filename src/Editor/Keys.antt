-- ===== src/Editor/Keys.antt =====
-- The loop of `run_editor` in src/editor.rs: what each key does. What the clipboard and the file
-- system answer comes with the event; the painting of the line is left out but for its slice up to
-- the cursor. `none` is a panic.
use ion_win.Base.{
  zero, suc, ◌+◌, ◌&&◌, Option, none, some, List, [], ◌∷◌, Text, if◌then◌else◌, ◌==◌, ltb, length,
  get_elem?, is_empty,
}
use ion_win.Editor.Buffer.{
  ◌>>=◌, Line, selected_text, delete_selection, insert_text, single_line_clipboard_text,
}
use ion_win.Editor.Actions.{
  Command, Editor, EditorOutcome, Event, Host, Reply, Session, aborted, again, cancel, command_of,
  copy, cut, done, empty_line, eof, eof_or_delete, fresh, ignored, key, line, line_command, newer,
  older, paste, read_error, redraw, skip, submit, with_line,
}

-- The line that is recalled from the history.
abbrev pub recalled : Text → Line
recalled text = record { buffer = text; cursor_pos = length text; selection_anchor = none }

unfoldable pub older_entry : Session → Editor → Option Editor
older_entry session s = elim s.history_index [
  | zero ↦ some s
  | suc i ↦ get_elem? session.history i >>= λ text. some (record {
    line = recalled text;
    history_index = i;
    saved_current = if suc i == length session.history then (s.line).buffer else s.saved_current;
  })
]

unfoldable pub newer_entry : Session → Editor → Option Editor
newer_entry session s =
    let i = s.history_index + 1 in
    if ltb s.history_index (length session.history)
    then (if i == length session.history
        then some (record s { line = recalled s.saved_current; history_index = i })
        else get_elem? session.history i >>= λ text.
            some (record s { line = recalled text; history_index = i }))
    else some s

abbrev pub cleared : Session → Editor → Editor
cleared session s = record s { line = empty_line; history_index = length session.history }

unfoldable pub copy_line : Session → Option Text → Editor → Option Reply
unfolding redraw
copy_line session none s = redraw (cleared session s)
copy_line session (some text) s = some (again s)

unfoldable pub cut_line : Host → Option Text → Line → Option Line
unfolding delete_selection
cut_line host none l = some l
cut_line host (some text) l =
    if host.write_ok then (delete_selection l >>= λ deleted. some deleted.0) else some l

unfoldable pub cancel_line : Session → Editor → Option Reply
unfolding redraw
cancel_line session s = elim (s.line).selection_anchor [
  | some anchor ↦ redraw (with_line s (record (s.line) { selection_anchor = none }))
  | none ↦
      if session.allow_abort && is_empty (s.line).buffer
      then some (done aborted)
      else redraw (cleared session s)
]

unfoldable pub perform : Session → Host → Command → Editor → Option Reply
unfolding redraw line_command copy_line cut_line cancel_line older_entry newer_entry selected_text
perform session host submit s = some (done (line (s.line).buffer))
perform session host copy s = selected_text s.line >>= λ text. copy_line session text s
perform session host cut s =
    selected_text s.line >>= λ text. cut_line host text s.line >>= λ l. redraw (with_line s l)
perform session host cancel s = cancel_line session s
perform session host older s = older_entry session s >>= redraw
perform session host newer s = newer_entry session s >>= redraw
perform session host skip s = some (again s)
perform session host eof_or_delete s =
    if is_empty (s.line).buffer
    then some (done eof)
    else line_command session.seg host eof_or_delete s.line >>= λ l. redraw (with_line s l)
perform session host command s =
    line_command session.seg host command s.line >>= λ l. redraw (with_line s l)

unfoldable pub handle : Session → Host → Event → Editor → Option Reply
unfolding command_of perform redraw insert_text single_line_clipboard_text
handle session host (key code m release) s =
    if release then some (again s) else perform session host (command_of code m) s
handle session host (paste text) s =
    insert_text (single_line_clipboard_text text) s.line >>= λ l. redraw (with_line s l)
handle session host ignored s = some (again s)
handle session host read_error s = some (done eof)

-- What a run of events leads to: a panic, an outcome with the events that are left, or an editor
-- that waits for more.
pub data Run : Type 0 where
  crashed : Run
  waiting : Editor → Run
  finished : EditorOutcome → List (Host × Event) → Run

-- What becomes of a run when an event has been handled.
abbrev pub resume : List (Host × Event) → (Editor → Run) → Option Reply → Run
resume events next none = crashed
resume events next (some (done outcome)) = finished outcome events
resume events next (some (again s)) = next s

unfoldable pub run : Session → List (Host × Event) → Editor → Run
unfolding handle
run session [] s = waiting s
run session ((host, event) ∷ events) s =
    resume events (λ s. run session events s) (handle session host event s)

-- `run_editor`: the line is painted once before the first event.
unfoldable pub run_editor : Session → List (Host × Event) → Run
unfolding run redraw
run_editor session events = elim (redraw (fresh session)) [
  | none ↦ crashed
  | some _ ↦ run session events (fresh session)
]
