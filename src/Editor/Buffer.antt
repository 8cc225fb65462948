-- ===== src/Editor/Buffer.antt =====
-- The edit buffer of src/editor.rs: characters, a cursor and the anchor of a selection. `none` is
-- the panic of an index or a slice that is out of range.
use ion_win.Base.{
  ℕ, zero, suc, ◌+◌, ◌-◌, Bool, true, false, not, ◌&&◌, Option, none, some, [], ◌∷◌, ◌++◌, Text,
  if◌then◌else◌, ◌==◌, ltb, leb, length, take, drop, get_elem?,
}
use ion_win.Base.Chars.{is_whitespace}

infixl 5 ◌>>=◌
abbrev pub ◌>>=◌ : {A B : Type 0} → Option A → (A → Option B) → Option B
none >>= f = none
some a >>= f = f a

pub record Line : Type 0 where
  pub buffer : Text
  pub cursor_pos : ℕ
  pub selection_anchor : Option ℕ

-- `buffer[start..end]`
unfoldable pub slice : (start end : ℕ) → Text → Option Text
slice start end buffer =
    if leb start end && leb end (length buffer)
    then some (take (end - start) (drop start buffer))
    else none

-- `buffer.drain(start..end)`
unfoldable pub drain : (start end : ℕ) → Text → Option Text
drain start end buffer =
    if leb start end && leb end (length buffer)
    then some (take start buffer ++ drop end buffer)
    else none

-- `buffer.splice(i..i, text)`, and `buffer.insert(i, c)` for one character.
unfoldable pub splice : ℕ → Text → Text → Option Text
splice i text buffer =
    if leb i (length buffer) then some (take i buffer ++ (text ++ drop i buffer)) else none

unfoldable pub selection_range : Option ℕ → ℕ → Option (ℕ × ℕ)
selection_range none cursor_pos = none
selection_range (some anchor) cursor_pos =
    if anchor == cursor_pos
    then none
    else if ltb anchor cursor_pos
    then some (anchor, cursor_pos)
    else some (cursor_pos, anchor)

unfoldable pub selected_text : Line → Option (Option Text)
unfolding slice selection_range
selected_text l = elim (selection_range l.selection_anchor l.cursor_pos) [
  | none ↦ some none
  | some (start, end) ↦ slice start end l.buffer >>= λ text. some (some text)
]

-- Whether there was a selection to delete stands beside the line.
unfoldable pub delete_range : Option (ℕ × ℕ) → Line → Option (Line × Bool)
unfolding drain
delete_range none l = some (record l { selection_anchor = none }, false)
delete_range (some (start, end)) l = do
  rest ← drain start end l.buffer
  some (record { buffer = rest; cursor_pos = start; selection_anchor = none }, true)

unfoldable pub delete_selection : Line → Option (Line × Bool)
unfolding delete_range selection_range
delete_selection l = delete_range (selection_range l.selection_anchor l.cursor_pos) l

unfoldable pub insert_text : Text → Line → Option Line
unfolding delete_selection splice
insert_text text l = do
  deleted ← delete_selection l
  inserted ← splice (deleted.0).cursor_pos text (deleted.0).buffer
  some (record (deleted.0) { buffer = inserted; cursor_pos = (deleted.0).cursor_pos + length text })

-- `replace("\r\n", " ")`
unfoldable pub replace_crlf : Text → Text
replace_crlf [] = []
replace_crlf (c ∷ []) = c ∷ []
replace_crlf (c ∷ d ∷ text) = elim (c == 13 && d == 10) [
  | true ↦ 32 ∷ replace_crlf text
  | false ↦ c ∷ replace_crlf (d ∷ text)
]

unfoldable pub replace_breaks : Text → Text
replace_breaks [] = []
replace_breaks (c ∷ text) =
    (if c == 13 then 32 else if c == 10 then 32 else c) ∷ replace_breaks text

unfoldable pub single_line_clipboard_text : Text → Text
unfolding replace_crlf replace_breaks
single_line_clipboard_text text = replace_breaks (replace_crlf text)

abbrev pub or_else : Option ℕ → ℕ → ℕ
or_else none d = d
or_else (some a) d = a

unfoldable pub extend_selection : ℕ → Line → Line
extend_selection destination l =
    let anchor = or_else l.selection_anchor l.cursor_pos in
    record l {
      cursor_pos = destination;
      selection_anchor = if anchor == destination then none else some anchor;
    }

-- `while i > 0 && p(buffer[i - 1])`
unfoldable pub skip_back : (ℕ → Bool) → Text → ℕ → Option ℕ
skip_back p buffer zero = some 0
skip_back p buffer (suc i) = elim (get_elem? buffer i) [
  | none ↦ none
  | some c ↦ elim (p c) [ true ↦ skip_back p buffer i | false ↦ some (suc i) ]
]

abbrev pub in_word : ℕ → Bool
in_word c = not (is_whitespace c)

unfoldable pub prev_word_boundary : Text → ℕ → Option ℕ
unfolding skip_back is_whitespace
prev_word_boundary buffer pos = do
  i ← skip_back is_whitespace buffer pos
  skip_back in_word buffer i

-- The characters of a class at the head of a text: the rounds of a forward loop.
unfoldable pub leading : (ℕ → Bool) → Text → ℕ
leading p [] = 0
leading p (c ∷ text) = elim (p c) [ true ↦ suc (leading p text) | false ↦ 0 ]

unfoldable pub next_word_boundary : Text → ℕ → ℕ
unfolding leading is_whitespace
next_word_boundary buffer pos =
    let i = pos + leading in_word (drop pos buffer) in i + leading is_whitespace (drop i buffer)

-- How a text is cut into grapheme clusters: the characters of the first one and of the last one,
-- or zero if the text is empty.
pub record Segmentation : Type 0 where
  pub first : Text → ℕ
  pub last : Text → ℕ

module _ (seg : Segmentation) where
  unfoldable pub prev_grapheme_boundary : Text → ℕ → Option ℕ
  unfolding slice
  prev_grapheme_boundary buffer pos =
      if pos == 0 then some 0 else slice 0 pos buffer >>= λ prefix. some (pos - seg.last prefix)

  unfoldable pub next_grapheme_boundary : Text → ℕ → Option ℕ
  unfolding slice
  next_grapheme_boundary buffer pos =
      if leb (length buffer) pos
      then some (length buffer)
      else slice pos (length buffer) buffer >>= λ suffix. some (pos + seg.first suffix)

  unfoldable pub delete_previous_grapheme : Line → Option Line
  unfolding prev_grapheme_boundary drain
  delete_previous_grapheme l = do
    start ← prev_grapheme_boundary l.buffer l.cursor_pos
    (if start == l.cursor_pos
        then some l
        else drain start l.cursor_pos l.buffer >>= λ rest.
            some (record l { buffer = rest; cursor_pos = start }))

  unfoldable pub delete_next_grapheme : Line → Option Line
  unfolding next_grapheme_boundary drain
  delete_next_grapheme l = do
    end ← next_grapheme_boundary l.buffer l.cursor_pos
    (if end == l.cursor_pos
        then some l
        else drain l.cursor_pos end l.buffer >>= λ rest. some (record l { buffer = rest }))
