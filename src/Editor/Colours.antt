-- ===== src/Editor/Colours.antt =====
-- The colours of src/editor.rs leave the line as it is.
use ion_win.Base.{
  subst, ℕ, zero, suc, ◌≤◌, ◌<◌, ◌≡◌, refl, ◌∙◌, ap, inl, inr, Bool, true, false, some, List, [],
  ◌∷◌, ◌++◌, Text, ◌==◌, length, Bool-cases, arith, length-append,
}
use ion_win.Base.Chars.{is_whitespace}
use ion_win.Editor.Highlight.{
  Colour, plain, dark_grey, green, cyan, Span, Piece, split_while, split_quote, is_quote, is_sigil,
  ends_word, in_bare_word, word_colour, next_piece, paint, highlight, plain_text,
}

split_while-joins :
    (p : ℕ → Bool) (text : Text) → (split_while p text).0 ++ (split_while p text).1 ≡ text
unfolding split_while
split_while-joins p [] = refl
split_while-joins p (c ∷ text) = elim (Bool-cases (p c)) [
  | inl e ↦ rw (split_while, e) (ap (λ t. c ∷ t) (split_while-joins p text))
  | inr e ↦ rw (split_while, e) refl
]

append_nil : (text : Text) → text ++ [] ≡ text
append_nil [] = refl
append_nil (c ∷ text) = ap (λ t. c ∷ t) (append_nil text)

split_quote-joins :
    (quote : ℕ) (text : Text) → (split_quote quote text).0 ++ (split_quote quote text).1 ≡ text
unfolding split_quote
split_quote-joins quote [] = refl
split_quote-joins quote (c ∷ text) = elim (Bool-cases (c == quote)) [
  | inl e ↦ rw (split_quote, e) refl
  | inr e ↦ rw (split_quote, e) (ap (λ t. c ∷ t) (split_quote-joins quote text))
]

module _ (is_keyword : Text → Bool) (is_alphanumeric : ℕ → Bool) where
  Joins : Piece → Text → Type 0
  Joins piece text = ((piece.span).text ++ piece.rest ≡ text) × (length piece.rest < length text)

  joined-Joins :
      (colour : Colour) (seen_word : Bool) (c : ℕ) (head rest text : Text)
      → head ++ rest ≡ text
      → Joins
          (record {
            span = record { colour = colour; text = c ∷ head };
            seen_word = seen_word;
            rest = rest;
          })
          (c ∷ text)
  unfolding Joins
  joined-Joins colour seen_word c head rest text e = (
    ap (λ t. c ∷ t) e,
    subst (λ t. length rest < suc (length t)) e (omega (arith, length-append head rest)),
  )

  next_piece-Joins :
      (seen_word : Bool) (c : ℕ) (rest : Text)
      → Joins (next_piece is_keyword is_alphanumeric seen_word c rest) (c ∷ rest)
  unfolding next_piece Joins ends_word
  next_piece-Joins seen_word c rest = elim (Bool-cases (c == 35)) [
    | inl e ↦ rw e (joined-Joins dark_grey seen_word c rest [] rest (append_nil rest))
    | inr e1 ↦ elim (Bool-cases (is_whitespace c)) [
      | inl e ↦ rw (e1, e) (joined-Joins plain seen_word c [] rest rest refl)
      | inr e2 ↦ elim (Bool-cases (is_quote c)) [
        | inl e ↦ rw (e1, e2, e) (joined-Joins green true c _ _ rest (split_quote-joins c rest))
        | inr e3 ↦ elim (Bool-cases (is_sigil c)) [
          | inl e ↦
              rw (e1, e2, e3, e) (joined-Joins cyan true c _ _ rest (split_while-joins _ rest))
          | inr e4 ↦
              rw (e1, e2, e3, e4)
                (joined-Joins
                  (word_colour is_keyword is_alphanumeric seen_word
                    (c ∷ (split_while in_bare_word rest).0))
                  true c _ _ rest (split_while-joins in_bare_word rest))
        ]
      ]
    ]
  ]

  paint-plain_text :
      (fuel : ℕ) (seen_word : Bool) (text : Text)
      → length text ≤ fuel
      → (spans : List Span) × (paint is_keyword is_alphanumeric fuel seen_word text ≡ some spans)
        × (plain_text spans ≡ text)
  unfolding paint plain_text Joins
  paint-plain_text fuel seen_word [] h = ([], refl, refl)
  paint-plain_text zero seen_word (c ∷ rest) h = absurd (omega (arith, h))
  paint-plain_text (suc fuel) seen_word (c ∷ rest) h =
      let piece : Piece = next_piece is_keyword is_alphanumeric seen_word c rest in
      let (joined, shorter) = next_piece-Joins seen_word c rest in
      let (spans, e, whole) =
        paint-plain_text fuel piece.seen_word piece.rest (omega (arith, h, shorter)) in
      (piece.span ∷ spans, rw e refl, ap (λ t. (piece.span).text ++ t) whole ∙ joined)

-- Whatever counts as a keyword, a letter or a digit: colouring a line comes to its end within as
-- many rounds as the line has characters, and the coloured pieces are the line, character by
-- character.
pub highlight-plain_text :
    (is_keyword : Text → Bool) (is_alphanumeric : ℕ → Bool) (line : Text)
    → (spans : List Span) × (highlight is_keyword is_alphanumeric line ≡ some spans)
      × (plain_text spans ≡ line)
unfolding highlight
highlight-plain_text is_keyword is_alphanumeric line =
    paint-plain_text is_keyword is_alphanumeric (length line) false line (omega arith)
