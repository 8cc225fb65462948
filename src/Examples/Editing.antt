-- ===== src/Examples/Editing.antt =====
-- Runs of the line editor of src/editor.rs.
use ion_win.Base.{
  ◌↔◌, ℕ, zero, suc, ◌+◌, ◌≤◌, ◌<◌, ◌≡◌, refl, ◌≢◌, Bool, true, false, Option, none, some, List, [],
  ◌∷◌, ◌++◌, Text, if◌then◌else◌, ◌==◌, length, take, text_eq, is_empty, codes, arith,
}
use ion_win.Base.Chars.{utf8_len, is_whitespace}
use ion_win.Editor.Buffer.{Line, Segmentation, insert_text}
use ion_win.Editor.Bounds.{InBounds, Cuts, Safe}
use ion_win.Editor.Complete.{complete, completion_of}
use ion_win.Editor.Completion.{complete-none, complete-some}
use ion_win.Editor.Invariant.{IsValid}
use ion_win.Editor.Actions.{
  char, left, up, down, Event, key, paste, KeyModifiers, Host, Session, Editor, line_command,
}
use ion_win.Editor.Keys.{crashed, waiting, run, run_editor, recalled}
use ion_win.Editor.Safety.{run_editor-NoTab, run_editor-IsValid}
use ion_win.Editor.Browse.{presses, run-restores}
use ion_win.Editor.Refines.{view, edit, insert_view, word_back, command_for}
use ion_win.Editor.Refines.Edits.{line_command-view, insert_text-view}
use ion_win.Editor.Highlight.{highlight, plain_text, Span}
use ion_win.Editor.Colours.{highlight-plain_text}
use ion_win.Editor.Selected.{
  apply_selection_highlight, visible_text, apply_selection_highlight-visible_text,
}

abbrev head_length : Text → ℕ
head_length [] = 0
head_length (c ∷ text) = 1

-- Every character is a cluster.
abbrev one_char : Segmentation
one_char = record { first = head_length; last = head_length }

head_length_le : (text : Text) → head_length text ≤ length text
head_length_le [] = omega arith
head_length_le (c ∷ text) = omega arith

one_char-Cuts : Cuts one_char
one_char-Cuts = record { first_le = head_length_le; last_le = head_length_le }

abbrev session : Session
session = record { history = codes "ls" ∷ codes "cd .." ∷ []; allow_abort = false; seg = one_char }

abbrev host : Host
host = record {
  write_ok = true;
  read_text = none;
  names = codes "echo" ∷ [];
  path_matches = λ prefix. [];
}

abbrev no_keys : KeyModifiers
no_keys = record { control = false; alt = false; shift = false }

abbrev with_shift : KeyModifiers
with_shift = record { control = false; alt = false; shift = true }

-- A paste of `a b`, Shift and Left, and the letter `c` in place of the `b`.
abbrev typing : List (Host × Event)
typing =
    (host, paste (codes "a b"))
    ∷ (host, key left with_shift false)
    ∷ (host, key (char 99) no_keys false)
    ∷ []

run_editor-NoTab_example : run_editor session typing ≢ crashed
run_editor-NoTab_example =
    run_editor-NoTab session typing one_char-Cuts
      (tt, ((λ e. absurd (cc e)), ((λ e. absurd (cc e)), tt)))

abbrev typed_line : Line
typed_line = record { buffer = codes "a c"; cursor_pos = 3; selection_anchor = none }

abbrev typed : Editor
typed = record { line = typed_line; history_index = 2; saved_current = [] }

run_editor-typing : run_editor session typing ≡ waiting typed
unfolding run_editor
run_editor-typing = refl

run_editor-IsValid_example : IsValid session typed
run_editor-IsValid_example = run_editor-IsValid session typing typed one_char-Cuts run_editor-typing

run-restores_example :
    run session
      (presses (key up no_keys false) host 3 ++ presses (key down no_keys false) host 3)
      typed
    ≡ waiting
        (record { line = recalled (codes "a c"); history_index = 2; saved_current = codes "a c" })
run-restores_example = run-restores session host no_keys typed 2 (omega arith) refl

typed_line-InBounds : InBounds typed_line
typed_line-InBounds = record { cursor = omega arith; anchor = tt }

line_command-view_example :
    Safe
      (line_command one_char host (command_for word_back) typed_line)
      (λ l'. view l' ≡ edit one_char word_back (view typed_line))
line_command-view_example =
    line_command-view one_char host word_back typed_line one_char-Cuts typed_line-InBounds

-- The word back from the end of `a c`.
edit-word_back :
    edit one_char word_back (view typed_line)
    ≡ record { before = codes "a "; selected = []; after = [] }
unfolding edit view
edit-word_back = refl

insert_text-view_example :
    Safe
      (insert_text (codes "xy") typed_line)
      (λ l'. (view l' ≡ insert_view (codes "xy") (view typed_line)) × (l'.selection_anchor ≡ none))
insert_text-view_example = insert_text-view (codes "xy") typed_line typed_line-InBounds

-- `ls`, an ideographic space, and the word `sr`.
complete-none_example :
    (complete (codes "echo" ∷ []) (λ prefix. []) ((codes "ls" ++ (12288 ∷ codes "sr")) ++ []) 5
      ≡ none)
    ↔ (utf8_len 12288 ≢ 1)
unfolding is_whitespace
complete-none_example =
    complete-none (codes "echo" ∷ []) (λ prefix. []) (codes "ls") 12288 (codes "sr") [] refl
      (refl, (refl, tt))

complete-echo :
    complete (codes "echo" ∷ []) (λ prefix. []) ((codes " " ++ (32 ∷ codes "ec")) ++ codes " x") 4
    ≡ some (some (codes "  echo x", 6))
unfolding complete ion_win.Base.contains ion_win.Builtins.starts_with text_eq
complete-echo = refl

complete-some_example :
    (completion : Text) × (text_eq completion (codes "ec") ≡ false)
    × (completion_of
          (codes "echo" ∷ [])
          (λ prefix. [])
          (record { prefix = codes "  "; token = codes "ec" })
        ≡ some completion)
    × (codes "  echo x" ≡ codes "  " ++ (completion ++ codes " x"))
    × (6 ≡ length (codes "  ") + length completion)
unfolding is_whitespace
complete-some_example =
    complete-some (codes "echo" ∷ []) (λ prefix. []) (codes " ") 32 (codes "ec") (codes " x")
      (codes "  echo x") 6 refl (refl, (refl, tt)) complete-echo

highlight-plain_text_example :
    (spans : List Span) × (highlight
        (λ word. text_eq word (codes "let"))
        (λ c. false)
        (codes "let x = 'y' # z")
      ≡ some spans)
    × (plain_text spans ≡ codes "let x = 'y' # z")
highlight-plain_text_example =
    highlight-plain_text (λ word. text_eq word (codes "let")) (λ c. false) (codes "let x = 'y' # z")

apply_selection_highlight-visible_text_example :
    visible_text false (apply_selection_highlight (27 ∷ codes "[31mab" ++ codes "cd") (1, 3))
    ≡ visible_text false (27 ∷ codes "[31mab" ++ codes "cd")
apply_selection_highlight-visible_text_example =
    apply_selection_highlight-visible_text (27 ∷ codes "[31mab" ++ codes "cd") 1 3
