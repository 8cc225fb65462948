-- ===== src/Ranges/Braces/Segments.antt =====
-- What the segments of `parse_top_level_segments` in src/ranges.rs are to the word.
use ion_win.Base.{
  ℕ, ◌≡◌, refl, sym, ◌∙◌, ap, inl, inr, Bool, true, false, Option, none, some, List, [], ◌∷◌, ◌++◌,
  Text, if◌then◌else◌, ◌==◌, ==_iff, Bool-cases, arith,
}
use mathlib.Core.List.{append_assoc, append-nil}
use ion_win.Ranges.Braces.{
  open_brace, close_brace, BraceSegment, literal, group, Mode, outside, in_variable, in_group,
  ends_in_sigil, push_literal, Scan, close_group, scan_outside, scan_group, scan_mode, scan_char,
  finish, scan, start, parse_top_level_segments,
}

-- The word that segments make up.
unfoldable pub print : List BraceSegment → Text
print [] = []
print (literal text ∷ segments) = text ++ print segments
print (group content ∷ segments) = open_brace ∷ (content ++ close_brace ∷ print segments)

print-append : (xs ys : List BraceSegment) → print (xs ++ ys) ≡ print xs ++ print ys
unfolding print
print-append [] ys = refl
print-append (literal text ∷ xs) ys =
    rw (print-append xs ys, append_assoc text (print xs) (print ys)) refl
print-append (group content ∷ xs) ys =
    rw (print-append xs ys, append_assoc content (close_brace ∷ print xs) (print ys)) refl

abbrev pending : Mode → Text
pending outside = []
pending in_variable = []
pending (in_group inner content) = open_brace ∷ content

-- What the scan has read so far.
abbrev shown : Scan → Text
shown s = print s.segments ++ (s.text ++ pending s.mode)

print-push_literal :
    (text : Text) (segments : List BraceSegment)
    → print (push_literal text segments) ≡ print segments ++ text
unfolding push_literal print
print-push_literal [] segments = sym (append-nil (print segments))
print-push_literal (c ∷ text) segments =
    print-append segments (literal (c ∷ text) ∷ []) ∙ rw (append-nil text) refl

module _ (segments : List BraceSegment) (text : Text) (found : Bool) where
  abbrev at : Mode → Scan
  at mode = record { segments = segments; text = text; found_group = found; mode = mode }

  shown-push : (c : ℕ) → print segments ++ ((text ++ c ∷ []) ++ []) ≡ shown (at outside) ++ c ∷ []
  shown-push c =
      rw (append-nil text, append-nil (text ++ c ∷ []), append_assoc (print segments) text (c ∷ []))
        refl

  shown-close_group :
      (content : Text) (inner : ℕ)
      → shown (close_group content (at (in_group inner content)))
        ≡ shown (at (in_group inner content)) ++ close_brace ∷ []
  unfolding close_group print
  shown-close_group [] inner = simp (append_assoc, append-nil)
  shown-close_group (d ∷ content) inner = print-whole ∙ simp (append_assoc)
    where
      print-whole :
          print (push_literal text segments ++ group (d ∷ content) ∷ []) ++ []
          ≡ (print segments ++ text) ++ open_brace ∷ (d ∷ content ++ close_brace ∷ [])
      print-whole =
          append-nil _
          ∙ print-append (push_literal text segments) (group (d ∷ content) ∷ [])
          ∙ ap (◌++ (open_brace ∷ (d ∷ content ++ close_brace ∷ [])))
              (print-push_literal text segments)

  shown-scan_group :
      (c inner : ℕ) (content : Text)
      → shown (scan_group c inner content (at (in_group inner content)))
        ≡ shown (at (in_group inner content)) ++ c ∷ []
  unfolding scan_group
  shown-scan_group c inner content = elim (Bool-cases (c == open_brace)) [
    | inl opens ↦ rw (opens, scan_group) (simp (append_assoc))
    | inr e ↦ elim (Bool-cases (c == close_brace)) [
      | inl closes ↦ elim (Bool-cases (inner == 0)) [
        | inl last ↦
            rw (e, closes, last, scan_group)
              (shown-close_group content inner
                ∙ ap (λ c. shown (at (in_group inner content)) ++ c ∷ [])
                    (sym ((==_iff c close_brace).0 closes)))
        | inr inside ↦ rw (e, closes, inside, scan_group) (simp (append_assoc))
      ]
      | inr other ↦ rw (e, other, scan_group) (simp (append_assoc))
    ]
  ]

  abbrev pushed : ℕ → Mode → Scan
  pushed c mode = record (at mode) { text = text ++ c ∷ [] }

  shown-pushed :
      (c : ℕ) (s : Scan)
      → s.segments ≡ segments
      → s.text ≡ text ++ c ∷ []
      → pending s.mode ≡ []
      → shown s ≡ (print segments ++ text) ++ c ∷ []
  shown-pushed c s same grown idle = rw (same, grown, idle) (simp (append_assoc, append-nil))

  shown-scan_outside :
      (c : ℕ) (s : Scan)
      → scan_outside c (at outside) ≡ some s
      → shown s ≡ (print segments ++ text) ++ c ∷ []
  unfolding scan_outside
  shown-scan_outside c s h = elim (Bool-cases (c == open_brace)) [
    | inl opens ↦ elim (Bool-cases (ends_in_sigil text)) [
      | inl sigil ↦
          let same : pushed c in_variable ≡ s = cc (opens, sigil, h) in
          ap shown (sym same) ∙ shown-pushed c (pushed c in_variable) refl refl refl
      | inr free ↦
          let same : at (in_group 0 []) ≡ s = cc (opens, free, h) in
          ap shown (sym same) ∙ rw ((==_iff c open_brace).0 opens) (simp (append_assoc))
    ]
    | inr e ↦ elim (Bool-cases (c == close_brace)) [
      | inl closes ↦ absurd (ground (arith, h, e, closes))
      | inr other ↦
          let same : pushed c outside ≡ s = cc (e, other, h) in
          ap shown (sym same) ∙ shown-pushed c (pushed c outside) refl refl refl
    ]
  ]

  shown-scan_char :
      (c : ℕ) (mode : Mode) (s : Scan)
      → scan_char c (at mode) ≡ some s
      → shown s ≡ shown (at mode) ++ c ∷ []
  unfolding scan_mode
  shown-scan_char c (in_group inner content) s h =
      let same : scan_group c inner content (at (in_group inner content)) ≡ s = cc h in
      ap shown (sym same) ∙ shown-scan_group c inner content
  shown-scan_char c in_variable s h =
      let same : pushed c (if c == close_brace then outside else in_variable) ≡ s = cc h in
      ap shown (sym same)
      ∙ shown-pushed c (pushed c (if c == close_brace then outside else in_variable)) refl refl
          (ground arith)
      ∙ rw (append-nil text) refl
  shown-scan_char c outside s h = shown-scan_outside c s h ∙ rw (append-nil text) refl

shown-finish :
    (s : Scan) (segments : List BraceSegment) → finish s ≡ some segments → print segments ≡ shown s
unfolding finish
shown-finish s segments h = go s.mode s.found_group h
  where
    all : print (push_literal s.text s.segments) ≡ print s.segments ++ (s.text ++ [])
    all = rw (append-nil s.text) (print-push_literal s.text s.segments)

    go :
        (mode : Mode) (found : Bool)
        → finish (record s { mode = mode; found_group = found }) ≡ some segments
        → print segments ≡ print s.segments ++ (s.text ++ pending mode)
    go outside true e = ap print (sym (cc e)) ∙ all
    go in_variable true e = ap print (sym (cc e)) ∙ all
    go outside false e = cc e
    go in_variable false e = cc e
    go (in_group inner content) found e = cc e

print-scan :
    (word : Text) (s : Scan) (segments : List BraceSegment)
    → scan word s ≡ some segments
    → print segments ≡ shown s ++ word
unfolding scan
print-scan [] s segments h = shown-finish s segments h ∙ sym (append-nil (shown s))
print-scan (c ∷ word) s segments h = go (scan_char c s) refl (print-scan word)
  where
    go :
        (next : Option Scan)
        → scan_char c s ≡ next
        → ((s : Scan) (segments : List BraceSegment)
            → scan word s ≡ some segments
            → print segments ≡ shown s ++ word)
        → print segments ≡ shown s ++ c ∷ word
    go none e again = let ran : scan (c ∷ word) s ≡ none = rw (e, scan) refl in cc (ran, h)
    go (some later) e again =
        let ran : scan (c ∷ word) s ≡ scan word later = rw (e, scan) refl in
        again later segments (sym ran ∙ h)
        ∙ ap (◌++ word) (shown-scan_char s.segments s.text s.found_group c s.mode later e)
        ∙ append_assoc (shown s) (c ∷ []) word

-- The segments that a word is cut into, with the braces of the groups put back, are the word.
pub print-parse_top_level_segments :
    (word : Text) (segments : List BraceSegment)
    → parse_top_level_segments word ≡ some segments
    → print segments ≡ word
unfolding parse_top_level_segments print
print-parse_top_level_segments word segments h = print-scan word start segments h
