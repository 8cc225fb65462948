-- ===== src/Editor/Highlight.antt =====
-- The colours of the line in src/editor.rs: `highlight` cuts a line into coloured pieces. What is
-- a keyword and what is a letter or a digit are parameters.
use ion_win.Base.{
  ℕ, zero, suc, Bool, true, false, not, ◌||◌, Option, none, some, List, [], ◌∷◌, ◌++◌, Text,
  if◌then◌else◌, ◌==◌, length,
}
use ion_win.Base.Chars.{is_whitespace}
use ion_win.Editor.Buffer.{◌>>=◌}

pub data Colour : Type 0 where
  plain dark_grey green cyan magenta blue : Colour

pub record Span : Type 0 where
  pub colour : Colour
  pub text : Text

-- A piece, whether a word has been seen behind it, and the characters that are left.
pub record Piece : Type 0 where
  pub span : Span
  pub seen_word : Bool
  pub rest : Text

-- The longest prefix whose characters pass, and what is left of the text.
unfoldable pub split_while : (ℕ → Bool) → Text → Text × Text
split_while p [] = ([], [])
split_while p (c ∷ text) =
    let (head, rest) = split_while p text in if p c then (c ∷ head, rest) else ([], c ∷ text)

-- The text up to the first quote, which is part of it.
unfoldable pub split_quote : ℕ → Text → Text × Text
split_quote quote [] = ([], [])
split_quote quote (c ∷ text) =
    let (head, rest) = split_quote quote text in
    if c == quote then (c ∷ [], text) else (c ∷ head, rest)

abbrev pub is_quote : ℕ → Bool
is_quote c = c == 39 || c == 34

abbrev pub is_sigil : ℕ → Bool
is_sigil c = c == 36 || c == 64

-- What a word stops at: white space and the characters `#`, `'`, `"`, `$` and `@`.
unfoldable pub ends_word : ℕ → Bool
ends_word c = is_whitespace c || (c == 35 || (is_quote c || is_sigil c))

abbrev pub in_bare_word : ℕ → Bool
in_bare_word c = not (ends_word c)

module _ (is_keyword : Text → Bool) (is_alphanumeric : ℕ → Bool) where
  -- The underscore, the braces and the parentheses are part of a variable.
  unfoldable pub in_variable : ℕ → Bool
  in_variable c = is_alphanumeric c || (c == 95 || (c == 123 || (c == 125 || (c == 40 || c == 41))))

  abbrev pub word_colour : Bool → Text → Colour
  word_colour true buf = plain
  word_colour false buf = if is_keyword buf then magenta else blue

  -- One round of the loop, at the character `c`.
  unfoldable pub next_piece : Bool → ℕ → Text → Piece
  unfolding split_while split_quote ends_word in_variable is_whitespace
  next_piece seen_word c rest =
      let quoted = split_quote c rest in
      let variable = split_while in_variable rest in
      let word = split_while in_bare_word (c ∷ rest) in
      if c == 35
      then record {
        span = record { colour = dark_grey; text = c ∷ rest };
        seen_word = seen_word;
        rest = [];
      }
      else if is_whitespace c
      then record {
        span = record { colour = plain; text = c ∷ [] };
        seen_word = seen_word;
        rest = rest;
      }
      else if is_quote c
      then record {
        span = record { colour = green; text = c ∷ quoted.0 };
        seen_word = true;
        rest = quoted.1;
      }
      else if is_sigil c
      then record {
        span = record { colour = cyan; text = c ∷ variable.0 };
        seen_word = true;
        rest = variable.1;
      }
      else record {
        span = record { colour = word_colour seen_word word.0; text = word.0 };
        seen_word = true;
        rest = word.1;
      }

  -- `none` is a loop that has not come to its end after so many rounds.
  unfoldable pub paint : (fuel : ℕ) → Bool → Text → Option (List Span)
  unfolding next_piece
  paint fuel seen_word [] = some []
  paint zero seen_word (_ ∷ _) = none
  paint (suc fuel) seen_word (c ∷ rest) =
      let piece = next_piece seen_word c rest in
      paint fuel piece.seen_word piece.rest >>= λ spans. some (piece.span ∷ spans)

  unfoldable pub highlight : Text → Option (List Span)
  unfolding paint
  highlight line = paint (length line) false line

-- What is printed, without the colours.
unfoldable pub plain_text : List Span → Text
plain_text [] = []
plain_text (span ∷ spans) = span.text ++ plain_text spans
