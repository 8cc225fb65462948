-- ===== src/Editor/Actions.antt =====
-- The keys of src/editor.rs and the changes of the line that they make. What the clipboard and the
-- file system answer comes with the event. `none` is a panic.
use ion_win.Base.{
  ℕ, Bool, ◌&&◌, Option, none, some, List, [], ◌∷◌, Text, if◌then◌else◌, ◌==◌, length, take,
}
use ion_win.Editor.Buffer.{
  ◌>>=◌, Line, slice, drain, delete_selection, insert_text, single_line_clipboard_text,
  extend_selection, prev_word_boundary, next_word_boundary, Segmentation, prev_grapheme_boundary,
  next_grapheme_boundary, delete_previous_grapheme, delete_next_grapheme,
}
use ion_win.Editor.Complete.{complete}

pub data EditorOutcome : Type 0 where
  line : Text → EditorOutcome
  eof aborted : EditorOutcome

pub data KeyCode : Type 0 where
  char : ℕ → KeyCode
  enter esc tab backspace delete left right home end up down other : KeyCode

pub record KeyModifiers : Type 0 where
  pub control : Bool
  pub alt : Bool
  pub shift : Bool

-- `ignored` stands for resizes, mouse and focus events.
pub data Event : Type 0 where
  key : KeyCode → KeyModifiers → (release : Bool) → Event
  paste : Text → Event
  ignored read_error : Event

-- What the program outside answers while the event is handled: whether the clipboard took a text,
-- the text it gave, the names of the builtins and the paths that match a prefix.
pub record Host : Type 0 where
  pub write_ok : Bool
  pub read_text : Option Text
  pub names : List Text
  pub path_matches : Text → List Text

-- What does not change while a line is read.
pub record Session : Type 0 where
  pub history : List Text
  pub allow_abort : Bool
  pub seg : Segmentation

pub record Editor : Type 0 where
  pub line : Line
  pub history_index : ℕ
  pub saved_current : Text

pub data Reply : Type 0 where
  again : Editor → Reply
  done : EditorOutcome → Reply

abbrev pub empty_line : Line
empty_line = record { buffer = []; cursor_pos = 0; selection_anchor = none }

abbrev pub fresh : Session → Editor
fresh session = record {
  line = empty_line;
  history_index = length session.history;
  saved_current = [];
}

-- `redraw` cuts the buffer at the cursor to find the column.
unfoldable pub redraw : Editor → Option Reply
unfolding slice
redraw s = slice 0 (s.line).cursor_pos (s.line).buffer >>= λ before. some (again s)

abbrev pub with_line : Editor → Line → Editor
with_line s l = record s { line = l }

pub data Motion : Type 0 where
  word_left word_right grapheme_left grapheme_right line_start line_end : Motion

pub data Command : Type 0 where
  submit copy cut paste_clipboard eof_or_delete kill_to_start kill_to_end : Command
  erase_word cancel complete_tab erase_back erase_forward older newer skip : Command
  extend move : Motion → Command
  insert : ℕ → Command

unfoldable pub control_command : ℕ → Command
control_command c =
    if c == 99
    then copy
    else if c == 120
    then cut
    else if c == 118
    then paste_clipboard
    else if c == 100
    then eof_or_delete
    else if c == 117
    then kill_to_start
    else if c == 107
    then kill_to_end
    else if c == 119
    then erase_word
    else skip

-- The arms of the match on the key and its modifiers, in their order.
unfoldable pub command_of : KeyCode → KeyModifiers → Command
unfolding control_command
command_of enter m = submit
command_of (char c) m = if m.control then control_command c else if m.alt then skip else insert c
command_of esc m = cancel
command_of tab m = complete_tab
command_of backspace m = if m.alt then erase_word else erase_back
command_of delete m = erase_forward
command_of left m =
    if m.control && m.shift
    then extend word_left
    else if m.control
    then move word_left
    else if m.shift
    then extend grapheme_left
    else move grapheme_left
command_of right m =
    if m.control && m.shift
    then extend word_right
    else if m.control
    then move word_right
    else if m.shift
    then extend grapheme_right
    else move grapheme_right
command_of home m = if m.shift then extend line_start else move line_start
command_of end m = if m.shift then extend line_end else move line_end
command_of up m = older
command_of down m = newer
command_of other m = skip

unfoldable pub destination : Segmentation → Motion → Line → Option ℕ
unfolding prev_word_boundary next_word_boundary prev_grapheme_boundary next_grapheme_boundary
destination seg word_left l = prev_word_boundary l.buffer l.cursor_pos
destination seg word_right l = some (next_word_boundary l.buffer l.cursor_pos)
destination seg grapheme_left l = prev_grapheme_boundary seg l.buffer l.cursor_pos
destination seg grapheme_right l = next_grapheme_boundary seg l.buffer l.cursor_pos
destination seg line_start l = some 0
destination seg line_end l = some (length l.buffer)

-- `if !delete_selection(…) { edit }`
abbrev pub or_selection : (Line → Option Line) → Line → Option Line
or_selection edit l =
    delete_selection l >>= λ deleted. if deleted.1 then some deleted.0 else edit deleted.0

unfoldable pub erase_from : ℕ → Line → Option Line
unfolding drain
erase_from start l = drain start l.cursor_pos l.buffer >>= λ rest.
    some (record l { buffer = rest; cursor_pos = start })

unfoldable pub erase_word_back : Line → Option Line
unfolding erase_from prev_word_boundary
erase_word_back l = prev_word_boundary l.buffer l.cursor_pos >>= λ start. erase_from start l

unfoldable pub truncate : Line → Option Line
truncate l = some (record l { buffer = take l.cursor_pos l.buffer })

abbrev pub adopt : Line → Option (Text × ℕ) → Line
adopt l none = l
adopt l (some (buffer, cursor_pos)) = record l { buffer = buffer; cursor_pos = cursor_pos }

unfoldable pub tab_line : Host → Line → Option Line
unfolding delete_selection complete
tab_line host l = do
  deleted ← delete_selection l
  found ← complete host.names host.path_matches (deleted.0).buffer (deleted.0).cursor_pos
  some (adopt deleted.0 found)

-- The change of the line that a command makes, if that is all it does.
unfoldable pub line_command : Segmentation → Host → Command → Line → Option Line
unfolding insert_text single_line_clipboard_text delete_selection erase_from erase_word_back
    truncate tab_line delete_previous_grapheme delete_next_grapheme destination extend_selection
line_command seg host kill_to_start l = or_selection (erase_from 0) l
line_command seg host kill_to_end l = or_selection truncate l
line_command seg host erase_word l = or_selection erase_word_back l
line_command seg host erase_back l = or_selection (delete_previous_grapheme seg) l
line_command seg host erase_forward l = or_selection (delete_next_grapheme seg) l
line_command seg host eof_or_delete l = or_selection (delete_next_grapheme seg) l
line_command seg host complete_tab l = tab_line host l
line_command seg host (insert c) l = insert_text (c ∷ []) l
line_command seg host (extend motion) l =
    destination seg motion l >>= λ target. some (extend_selection target l)
line_command seg host (move motion) l = destination seg motion l >>= λ target.
    some (record l { cursor_pos = target; selection_anchor = none })
line_command seg host paste_clipboard l = elim host.read_text [
  | none ↦ some l
  | some text ↦ insert_text (single_line_clipboard_text text) l
]
line_command seg host _ l = some l
