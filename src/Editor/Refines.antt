-- ===== src/Editor/Refines.antt =====
-- The edit buffer of src/editor.rs seen without indices: the text before the selection, the
-- selected text and the text after it. The editing keys do to it what `edit` says.
pub mod Pieces
pub mod Words
pub mod Edits
use ion_win.Base.{
  ◌&&◌, ℕ, zero, suc, ◌+◌, ◌-◌, ◌≤◌, ◌<◌, ◌≡◌, refl, sym, ◌∙◌, ap, inl, inr, Bool, true, false, not,
  Option, none, some, List, [], ◌∷◌, ◌++◌, Text, if◌then◌else◌, ◌==◌, length, take, drop,
  Bool-cases, Option-cases, arith, is_empty,
}
use ion_win.Base.Chars.{is_whitespace}
use ion_win.Editor.Buffer.{
  ◌>>=◌, Line, selection_range, delete_selection, delete_range, in_word, Segmentation,
  single_line_clipboard_text,
}
use ion_win.Editor.Bounds.{InBounds, Cuts, Safe, Safe-bind}
use ion_win.Editor.Actions.{
  Host, Command, kill_to_start, kill_to_end, erase_word, erase_back, erase_forward, paste_clipboard,
  insert, line_command, or_selection,
}

pub record View : Type 0 where
  pub before : Text
  pub selected : Text
  pub after : Text

abbrev pub view_of : Text → ℕ → Option (ℕ × ℕ) → View
view_of buffer cursor_pos none = record {
  before = take cursor_pos buffer;
  selected = [];
  after = drop cursor_pos buffer;
}
view_of buffer cursor_pos (some (start, end)) = record {
  before = take start buffer;
  selected = take (end - start) (drop start buffer);
  after = drop end buffer;
}

unfoldable pub view : Line → View
unfolding selection_range
view l = view_of l.buffer l.cursor_pos (selection_range l.selection_anchor l.cursor_pos)

abbrev pub trim_step : (ℕ → Bool) → ℕ → Text → Text
trim_step p c rest = if is_empty rest && p c then [] else c ∷ rest

-- The text without the characters of a class at its end.
unfoldable pub trim_back : (ℕ → Bool) → Text → Text
trim_back p [] = []
trim_back p (c ∷ text) = trim_step p c (trim_back p text)

-- A view without a selection.
abbrev pub plain_view : Text → Text → View
plain_view before after = record { before = before; selected = []; after = after }

-- What a key does where nothing is selected.
pub data Edit : Type 0 where
  to_start to_end word_back cluster_back cluster_forward : Edit

unfoldable pub erase : Segmentation → Edit → Text → Text → View
unfolding trim_back is_whitespace
erase seg to_start before after = plain_view [] after
erase seg to_end before after = plain_view before []
erase seg word_back before after =
    plain_view (trim_back in_word (trim_back is_whitespace before)) after
erase seg cluster_back before after =
    plain_view (take (length before - seg.last before) before) after
erase seg cluster_forward before after = plain_view before (drop (seg.first after) after)

-- An erasing key erases the selection if there is one.
unfoldable pub edit : Segmentation → Edit → View → View
unfolding erase
edit seg e v =
    if is_empty v.selected then erase seg e v.before v.after else plain_view v.before v.after

-- A text that is inserted takes the place of the selection.
unfoldable pub insert_view : Text → View → View
insert_view text v = plain_view (v.before ++ text) v.after

abbrev pub command_for : Edit → Command
command_for to_start = kill_to_start
command_for to_end = kill_to_end
command_for word_back = erase_word
command_for cluster_back = erase_back
command_for cluster_forward = erase_forward
