-- ===== src/Ranges/Braces/Balanced.antt =====
-- What each segment of `parse_top_level_segments` in src/ranges.rs is.
use ion_win.Base.{
  ℕ, ◌+◌, ◌-◌, ◌≡◌, refl, sym, ◌∙◌, ap, inl, inr, Bool, true, false, Option, none, some, List, [],
  ◌∷◌, ◌++◌, Text, if◌then◌else◌, ◌==◌, ==_iff, Bool-cases, All, All-append, subst, arith,
}
use ion_win.Ranges.Braces.{
  open_brace, close_brace, BraceSegment, literal, group, Mode, outside, in_variable, in_group,
  ends_in_sigil, push_literal, Scan, close_group, scan_outside, scan_group, scan_mode, scan_char,
  finish, scan, start, parse_top_level_segments,
}
use ion_win.Ranges.Braces.Depth.{
  depth_after, depth_after-push, IsSegment, any_group, any_group-append,
}

abbrev ModeOk : Mode → Type 0
ModeOk outside = Unit
ModeOk in_variable = Unit
ModeOk (in_group inner content) = depth_after 0 content ≡ some inner

record IsScan (s : Scan) : Type 0 where
  segments_ok : All IsSegment s.segments
  found_ok : s.found_group ≡ any_group s.segments
  mode_ok : ModeOk s.mode

push_literal-ok :
    (text : Text) (segments : List BraceSegment)
    → All IsSegment segments
    → All IsSegment (push_literal text segments)
      × (any_group (push_literal text segments) ≡ any_group segments)
unfolding push_literal any_group
push_literal-ok [] segments h = (h, refl)
push_literal-ok (c ∷ text) segments h = (
  All-append IsSegment segments (literal (c ∷ text) ∷ []) h ((λ e. cc e), tt),
  any_group-append segments (literal (c ∷ text) ∷ []) ∙ ground arith,
)

close_group-IsScan :
    (content : Text) (s : Scan)
    → IsScan s
    → depth_after 0 content ≡ some 0
    → IsScan (close_group content s)
unfolding close_group any_group
close_group-IsScan [] s v h = record {
  segments_ok = v.segments_ok;
  found_ok = v.found_ok;
  mode_ok = tt;
}
close_group-IsScan (c ∷ content) s v h =
    let pushed = push_literal-ok s.text s.segments v.segments_ok in
    record {
      segments_ok =
          All-append IsSegment (push_literal s.text s.segments) (group (c ∷ content) ∷ []) pushed.0
            (((λ e. cc e), h), tt);
      found_ok = sym (
          any_group-append (push_literal s.text s.segments) (group (c ∷ content) ∷ [])
          ∙ ground arith);
      mode_ok = tt;
    }

scan_group-IsScan :
    (c inner : ℕ) (content : Text) (s : Scan)
    → IsScan s
    → depth_after 0 content ≡ some inner
    → IsScan (scan_group c inner content s)
unfolding scan_group
scan_group-IsScan c inner content s v h = elim (Bool-cases (c == open_brace)) [
  | inl opens ↦
      rw (opens, scan_group)
        (stay (inner + 1) (depth_after-push c content 0 inner h ∙ rw opens refl))
  | inr e ↦ elim (Bool-cases (c == close_brace)) [
    | inl closes ↦ elim (Bool-cases (inner == 0)) [
      | inl last ↦
          rw (e, closes, last, scan_group)
            (close_group-IsScan content s v (h ∙ ap some ((==_iff inner 0).0 last)))
      | inr inside ↦
          rw (e, closes, inside, scan_group)
            (stay (inner - 1) (depth_after-push c content 0 inner h ∙ rw (e, closes, inside) refl))
    ]
    | inr other ↦
        rw (e, other, scan_group)
          (stay inner (depth_after-push c content 0 inner h ∙ rw (e, other) refl))
  ]
]
  where
    stay :
        (depth : ℕ)
        → depth_after 0 (content ++ c ∷ []) ≡ some depth
        → IsScan (record s { mode = in_group depth (content ++ c ∷ []) })
    stay depth at = record { segments_ok = v.segments_ok; found_ok = v.found_ok; mode_ok = at }

scan_outside-IsScan :
    (c : ℕ) (s next : Scan)
    → IsScan s
    → s.mode ≡ outside
    → scan_outside c s ≡ some next
    → IsScan next
unfolding scan_outside depth_after
scan_outside-IsScan c s next v m h = elim (Bool-cases (c == open_brace)) [
  | inl opens ↦ elim (Bool-cases (ends_in_sigil s.text)) [
    | inl sigil ↦
        let same : record s { text = s.text ++ c ∷ []; mode = in_variable } ≡ next =
          cc (opens, sigil, h) in
        subst IsScan same
          (record { segments_ok = v.segments_ok; found_ok = v.found_ok; mode_ok = tt })
    | inr free ↦
        let same : record s { mode = in_group 0 [] } ≡ next = cc (opens, free, h) in
        subst IsScan same
          (record { segments_ok = v.segments_ok; found_ok = v.found_ok; mode_ok = refl })
  ]
  | inr e ↦ elim (Bool-cases (c == close_brace)) [
    | inl closes ↦ absurd (ground (arith, h, e, closes))
    | inr other ↦
        let same : record s { text = s.text ++ c ∷ [] } ≡ next = cc (e, other, h) in
        subst IsScan same
          (record { segments_ok = v.segments_ok; found_ok = v.found_ok; mode_ok = v.mode_ok })
  ]
]

scan_mode-IsScan :
    (c : ℕ) (s next : Scan) (mode : Mode)
    → IsScan s
    → s.mode ≡ mode
    → scan_mode c s mode ≡ some next
    → IsScan next
unfolding scan_mode
scan_mode-IsScan c s next outside v m h = scan_outside-IsScan c s next v m h
scan_mode-IsScan c s next in_variable v m h =
    let moved = record s {
      text = s.text ++ c ∷ [];
      mode = if c == close_brace then outside else in_variable;
    } in
    let same : moved ≡ next = cc h in
    subst IsScan same
      (record { segments_ok = v.segments_ok; found_ok = v.found_ok; mode_ok = idle })
  where
    idle : ModeOk (if c == close_brace then outside else in_variable)
    idle = elim (Bool-cases (c == close_brace)) [ inl e ↦ rw e tt | inr e ↦ rw e tt ]
scan_mode-IsScan c s next (in_group inner content) v m h =
    let same : scan_group c inner content s ≡ next = cc h in
    subst IsScan same (scan_group-IsScan c inner content s v (subst ModeOk m v.mode_ok))

finish-ok :
    (s : Scan) (segments : List BraceSegment)
    → IsScan s
    → finish s ≡ some segments
    → All IsSegment segments × (any_group segments ≡ true)
unfolding finish
finish-ok s segments v h = go s.mode s.found_group (sym v.found_ok) h
  where
    done :
        any_group s.segments ≡ true
        → push_literal s.text s.segments ≡ segments
        → All IsSegment segments × (any_group segments ≡ true)
    done some_group same =
        let flushed = push_literal-ok s.text s.segments v.segments_ok in
        subst (λ segments. All IsSegment segments × (any_group segments ≡ true)) same
          (flushed.0, flushed.1 ∙ some_group)

    go :
        (mode : Mode) (found : Bool)
        → any_group s.segments ≡ found
        → finish (record s { mode = mode; found_group = found }) ≡ some segments
        → All IsSegment segments × (any_group segments ≡ true)
    go outside true g e = done g (cc e)
    go in_variable true g e = done g (cc e)
    go outside false g e = absurd (cc e)
    go in_variable false g e = absurd (cc e)
    go (in_group inner content) found g e = absurd (cc e)

scan-ok :
    (word : Text) (s : Scan) (segments : List BraceSegment)
    → IsScan s
    → scan word s ≡ some segments
    → All IsSegment segments × (any_group segments ≡ true)
unfolding scan
scan-ok [] s segments v h = finish-ok s segments v h
scan-ok (c ∷ word) s segments v h = go (scan_char c s) refl (scan-ok word)
  where
    go :
        (next : Option Scan)
        → scan_char c s ≡ next
        → ((s : Scan) (segments : List BraceSegment)
            → IsScan s
            → scan word s ≡ some segments
            → All IsSegment segments × (any_group segments ≡ true))
        → All IsSegment segments × (any_group segments ≡ true)
    go none e again = let ran : scan (c ∷ word) s ≡ none = rw (e, scan) refl in absurd (cc (ran, h))
    go (some later) e again =
        let ran : scan (c ∷ word) s ≡ scan word later = rw (e, scan) refl in
        again later segments (scan_mode-IsScan c s later s.mode v refl e) (sym ran ∙ h)

-- When a word is cut into segments at all, it has a group, no literal is empty, and every group
-- has a content that is not empty and whose braces match.
pub parse_top_level_segments-IsSegment :
    (word : Text) (segments : List BraceSegment)
    → parse_top_level_segments word ≡ some segments
    → All IsSegment segments × (any_group segments ≡ true)
unfolding parse_top_level_segments any_group
parse_top_level_segments-IsSegment word segments h =
    scan-ok word start segments (record { segments_ok = tt; found_ok = refl; mode_ok = tt }) h
