-- ===== src/Ranges/Braces.antt =====
-- The brace groups of a word in src/ranges.rs: `parse_top_level_segments` finds the groups that
-- stand outside others, `split_top_level_commas` the elements of one.
pub mod Segments
pub mod Depth
pub mod Balanced
pub mod Commas
use ion_win.Base.{
  ℕ, zero, suc, ◌+◌, ◌-◌, Bool, true, false, ◌&&◌, ◌||◌, Option, none, some, List, [], ◌∷◌, ◌++◌,
  Text, if◌then◌else◌, ◌==◌, is_empty,
}
use ion_win.Base.Int.{ℤ, pos, negsuc, ◌+ℤ◌, ◌-ℤ◌}

abbrev pub open_brace : ℕ
open_brace = 123

abbrev pub close_brace : ℕ
close_brace = 125

abbrev pub comma : ℕ
comma = 44

pub data BraceSegment : Type 0 where
  literal group : Text → BraceSegment

-- Where the scan is: between groups, in the braces of a variable, or in a group with this many
-- braces inside it still open and this content so far.
pub data Mode : Type 0 where
  outside in_variable : Mode
  in_group : (inner : ℕ) → (content : Text) → Mode

-- `literal.chars().last()` is `$` or `@`.
unfoldable pub ends_in_sigil : Text → Bool
ends_in_sigil [] = false
ends_in_sigil (c ∷ []) = c == 36 || c == 64
ends_in_sigil (c ∷ d ∷ text) = ends_in_sigil (d ∷ text)

unfoldable pub push_literal : Text → List BraceSegment → List BraceSegment
push_literal text segments = if is_empty text then segments else segments ++ literal text ∷ []

-- The local variables of `parse_top_level_segments`.
pub record Scan : Type 0 where
  pub segments : List BraceSegment
  pub text : Text
  pub found_group : Bool
  pub mode : Mode

unfoldable pub close_group : Text → Scan → Scan
unfolding push_literal
close_group content s =
    if is_empty content
    then record s { text = s.text ++ open_brace ∷ close_brace ∷ []; mode = outside }
    else record {
      segments = push_literal s.text s.segments ++ group content ∷ [];
      text = [];
      found_group = true;
      mode = outside;
    }

unfoldable pub scan_outside : ℕ → Scan → Option Scan
unfolding ends_in_sigil
scan_outside c s =
    if c == open_brace
    then (if ends_in_sigil s.text
        then some (record s { text = s.text ++ c ∷ []; mode = in_variable })
        else some (record s { mode = in_group 0 [] }))
    else if c == close_brace
    then none
    else some (record s { text = s.text ++ c ∷ [] })

unfoldable pub scan_group : ℕ → ℕ → Text → Scan → Scan
unfolding close_group
scan_group c inner content s =
    if c == open_brace
    then record s { mode = in_group (inner + 1) (content ++ c ∷ []) }
    else if c == close_brace
    then (if inner == 0
        then close_group content s
        else record s { mode = in_group (inner - 1) (content ++ c ∷ []) })
    else record s { mode = in_group inner (content ++ c ∷ []) }

-- One character, by where the scan is; `none` is an unmatched closing brace.
unfoldable pub scan_mode : ℕ → Scan → Mode → Option Scan
unfolding scan_outside scan_group
scan_mode c s outside = scan_outside c s
scan_mode c s in_variable =
    some (record s {
      text = s.text ++ c ∷ [];
      mode = if c == close_brace then outside else in_variable;
    })
scan_mode c s (in_group inner content) = some (scan_group c inner content s)

abbrev pub scan_char : ℕ → Scan → Option Scan
scan_char c s = scan_mode c s s.mode

-- The end of the word: an open group is refused.
unfoldable pub finish : Scan → Option (List BraceSegment)
unfolding push_literal
finish s =
    let all = if s.found_group then some (push_literal s.text s.segments) else none in
    elim s.mode [ outside ↦ all | in_variable ↦ all | in_group inner content ↦ none ]

unfoldable pub scan : Text → Scan → Option (List BraceSegment)
unfolding scan_mode finish
scan [] s = finish s
scan (c ∷ word) s = elim (scan_char c s) [ none ↦ none | some s ↦ scan word s ]

abbrev pub start : Scan
start = record { segments = []; text = []; found_group = false; mode = outside }

unfoldable pub parse_top_level_segments : Text → Option (List BraceSegment)
unfolding scan
parse_top_level_segments word = scan word start

-- The parts before the last one, and the last one as far as it is read. The depth may go below
-- zero; it is an i32 that no word is long enough to overflow.
pub record Split : Type 0 where
  pub depth : ℤ
  pub parts : List Text
  pub part : Text

abbrev is_zero : ℤ → Bool
is_zero (pos d) = d == 0
is_zero (negsuc d) = false

unfoldable pub split_char : ℕ → Split → Split
unfolding ◌+ℤ◌ ◌-ℤ◌
split_char c s =
    let kept = record s { part = s.part ++ c ∷ [] } in
    if c == open_brace
    then record kept { depth = s.depth +ℤ pos 1 }
    else if c == close_brace
    then record kept { depth = s.depth -ℤ pos 1 }
    else if c == comma && is_zero s.depth
    then record s { parts = s.parts ++ s.part ∷ []; part = [] }
    else kept

unfoldable pub split_from : Text → Split → List Text
unfolding split_char
split_from [] s = s.parts ++ s.part ∷ []
split_from (c ∷ content) s = split_from content (split_char c s)

unfoldable pub split_top_level_commas : Text → List Text
unfolding split_from
split_top_level_commas content =
    split_from content (record { depth = pos 0; parts = []; part = [] })
