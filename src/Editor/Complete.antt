-- ===== src/Editor/Complete.antt =====
-- Completion of the word at the cursor in src/editor.rs. The names of the builtins and the paths
-- that match a prefix are parameters. `none` on the outside is a panic.
use ion_win.Base.{
  ℕ, zero, suc, ◌+◌, ◌-◌, Bool, true, false, not, ◌&&◌, ◌||◌, Option, none, some, List, [], ◌∷◌,
  ◌++◌, Text, if◌then◌else◌, ◌==◌, ltb, leb, length, take, drop, text_eq, contains, is_empty,
  retain,
}
use ion_win.Base.Chars.{is_whitespace, trim, ascii_lower, utf8_len, byte_len}
use ion_win.Builtins.{starts_with}
use ion_win.Editor.Buffer.{◌>>=◌, slice}

-- Whether two texts are the same but for the case of ASCII letters.
unfoldable pub eq_ignore_ascii_case : Text → Text → Bool
eq_ignore_ascii_case [] [] = true
eq_ignore_ascii_case [] (_ ∷ _) = false
eq_ignore_ascii_case (_ ∷ _) [] = false
eq_ignore_ascii_case (a ∷ s) (b ∷ t) = ascii_lower a == ascii_lower b && eq_ignore_ascii_case s t

-- `while end > 0 && …`: the longest prefix of `first`, of at most `end` characters, that the item
-- begins with.
unfoldable pub shrink : Text → Text → ℕ → ℕ
unfolding eq_ignore_ascii_case
shrink first item zero = 0
shrink first item (suc end) =
    elim (eq_ignore_ascii_case (take (suc end) first) (take (suc end) item)) [
      | true ↦ suc end
      | false ↦ shrink first item end
    ]

unfoldable pub shrink_all : Text → List Text → ℕ → ℕ
unfolding shrink
shrink_all first [] end = end
shrink_all first (item ∷ items) end = shrink_all first items (shrink first item end)

unfoldable pub common_prefix : List Text → Option Text
unfolding shrink_all
common_prefix [] = none
common_prefix (first ∷ items) = some (take (shrink_all first items (length first)) first)

abbrev longer_than : Text → Option Text → Option Text
longer_than prefix none = none
longer_than prefix (some common) =
    if ltb (byte_len prefix) (byte_len common) then some common else none

unfoldable pub choose_completion : Text → List Text → Option Text
unfolding common_prefix byte_len
choose_completion prefix [] = none
choose_completion prefix (only ∷ []) = some only
choose_completion prefix (a ∷ b ∷ items) = longer_than prefix (common_prefix (a ∷ b ∷ items))

unfoldable pub looks_like_path : Text → Bool
looks_like_path token =
    contains token 92
    || (contains token 47
        || (starts_with token (46 ∷ []) || (starts_with token (126 ∷ []) || contains token 58)))

abbrev pub rfind_before : ℕ → Option ℕ → Option ℕ
rfind_before c (some i) = some (utf8_len c + i)
rfind_before c none = if is_whitespace c then some 0 else none

-- `rfind(char::is_whitespace)`: the byte at which the last white space starts.
unfoldable pub rfind_space : Text → Option ℕ
unfolding is_whitespace
rfind_space [] = none
rfind_space (c ∷ text) = rfind_before c (rfind_space text)

-- `map(|i| i + 1).unwrap_or(0)`
abbrev pub token_start : Option ℕ → ℕ
token_start none = 0
token_start (some i) = i + 1

-- The two slices of a text at a byte.
pub record Word : Type 0 where
  pub prefix : Text
  pub token : Text

abbrev pub put_before : ℕ → Option Word → Option Word
put_before c none = none
put_before c (some w) = some (record { prefix = c ∷ w.prefix; token = w.token })

-- `text[..at]` and `text[at..]`: a panic if `at` is behind the text or inside a character.
unfoldable pub split_at : ℕ → Text → Option Word
split_at zero text = some (record { prefix = []; token = text })
split_at (suc at) [] = none
split_at (suc at) (c ∷ text) =
    let rest = split_at (suc at - utf8_len c) text in
    if leb (utf8_len c) (suc at) then put_before c rest else none

abbrev pub completed : Word → Text → Option Text → Option (Text × ℕ)
completed w suffix none = none
completed w suffix (some completion) =
    if text_eq completion w.token
    then none
    else some (w.prefix ++ (completion ++ suffix), length w.prefix + length completion)

module _ (names : List Text) (path_matches : Text → List Text) where
  unfoldable pub complete_command : Text → Option Text
  unfolding choose_completion
  complete_command prefix =
      choose_completion prefix (retain (λ cmd. starts_with cmd prefix) names ++ path_matches prefix)

  unfoldable pub complete_path : Text → Option Text
  unfolding choose_completion
  complete_path prefix = choose_completion prefix (path_matches prefix)

  unfoldable pub completion_of : Word → Option Text
  unfolding complete_command complete_path looks_like_path trim
  completion_of w =
      if is_empty (trim w.prefix) && not (looks_like_path w.token)
      then complete_command w.token
      else complete_path w.token

  unfoldable pub complete_word : Word → Text → Option (Text × ℕ)
  unfolding completion_of
  complete_word w suffix = if is_empty w.token then none else completed w suffix (completion_of w)

  unfoldable pub complete : Text → ℕ → Option (Option (Text × ℕ))
  unfolding slice rfind_space split_at complete_word
  complete buffer cursor_pos = do
    before_cursor ← slice 0 cursor_pos buffer
    w ← split_at (token_start (rfind_space before_cursor)) before_cursor
    some (complete_word w (drop cursor_pos buffer))
