-- ===== src/Editor/Refines/Pieces.antt =====
-- The operations of src/editor.rs on a buffer that is two texts around the cursor.
use ion_win.Base.{
  subst, take-append-drop, ℕ, zero, suc, ◌+◌, ◌-◌, ◌≤◌, ◌<◌, ◌≡◌, refl, sym, ◌∙◌, ap, true, false,
  not, Option, none, some, [], ◌∷◌, ◌++◌, Text, leb, length, take, drop, arith, is_empty,
  length-append, take-append, drop-append, take-append_le, length-take, length-drop,
}
use mathlib.Core.List.{append_assoc, append-nil}
use ion_win.Editor.Buffer.{Line, splice, selection_range, delete_selection, delete_range}
use ion_win.Editor.Bounds.{InBounds, selection_range-RangeOk, RangeOk, drain-Safe}
use ion_win.Editor.Actions.{erase_from, truncate}
use ion_win.Editor.Refines.{view, view_of, plain_view}

abbrev pub line_at : Text → Text → Line
line_at before after = record {
  buffer = before ++ after;
  cursor_pos = length before;
  selection_anchor = none;
}

pub drop_beyond : (n : ℕ) (a b : Text) → drop (length a + n) (a ++ b) ≡ drop n b
drop_beyond n [] b = subst (λ k. drop k b ≡ drop n b) {x = n} (omega arith) refl
drop_beyond n (c ∷ a) b =
    subst (λ k. drop k (c ∷ (a ++ b)) ≡ drop n b) {x = suc (length a + n)} (omega arith)
      (drop_beyond n a b)

-- A prefix of a buffer and what is behind it, with the cursor in between.
line_at_eq :
    (start : ℕ) (b after : Text)
    → start ≤ length b
    → line_at (take start b) after
      ≡ record { buffer = take start b ++ after; cursor_pos = start; selection_anchor = none }
line_at_eq start b after h =
    ap (λ n. record { buffer = take start b ++ after; cursor_pos = n; selection_anchor = none })
      (omega (arith, length-take start b, h))

pub view-line_at : (before after : Text) → view (line_at before after) ≡ plain_view before after
unfolding view
view-line_at before after = rw (take-append before after, drop-append before after) refl

is_empty-take : (n : ℕ) (b : Text) → 0 < n → 0 < length b → is_empty (take n b) ≡ false
is_empty-take zero b h k = absurd (omega (arith, h))
is_empty-take (suc n) [] h k = absurd (omega (arith, k))
is_empty-take (suc n) (c ∷ b) h k = refl

delete_range-view :
    (range : Option (ℕ × ℕ)) (l : Line)
    → InBounds l
    → RangeOk (length l.buffer) range
    → delete_range range l
      ≡ some (
        line_at
            (view_of l.buffer l.cursor_pos range).before
            (view_of l.buffer l.cursor_pos range).after,
        not (is_empty (view_of l.buffer l.cursor_pos range).selected),
      )
unfolding delete_range
delete_range-view none l v r =
    ap (λ l'. some (l', false))
      (ap (λ b. record { buffer = b; cursor_pos = l.cursor_pos; selection_anchor = none })
          (sym (take-append-drop l.cursor_pos l.buffer))
        ∙ sym (line_at_eq l.cursor_pos l.buffer (drop l.cursor_pos l.buffer) v.cursor))
delete_range-view (some (start, end)) l v (lo, hi) =
    let (rest, e, (whole, _)) = drain-Safe start end l.buffer (omega (arith, lo)) hi in
    let full : is_empty (take (end - start) (drop start l.buffer)) ≡ false =
      is_empty-take (end - start) (drop start l.buffer) (omega (arith, lo))
        (omega (arith, length-drop start l.buffer, lo, hi)) in
    rw (full, e)
      (ap (λ l'. some (l', true))
        (ap (λ b. record { buffer = b; cursor_pos = start; selection_anchor = none }) whole
          ∙ sym (line_at_eq start l.buffer (drop end l.buffer) (omega (arith, lo, hi)))))

pub delete_selection-view :
    (l : Line)
    → InBounds l
    → delete_selection l
      ≡ some (line_at (view l).before (view l).after, not (is_empty (view l).selected))
unfolding delete_selection view
delete_selection-view l v =
    delete_range-view (selection_range l.selection_anchor l.cursor_pos) l v
      (selection_range-RangeOk (length l.buffer) l.selection_anchor l.cursor_pos v.anchor v.cursor)

pub splice-line_at :
    (before text after : Text)
    → splice (length before) text (before ++ after) ≡ some ((before ++ text) ++ after)
unfolding splice
splice-line_at before text after =
    let within : leb (length before) (length (before ++ after)) ≡ true =
      ground (arith, length-append before after) in
    rw (within, take-append before after, drop-append before after, append_assoc before text after)
      refl

pub erase_from-line_at :
    (start : ℕ) (before after : Text)
    → start ≤ length before
    → erase_from start (line_at before after) ≡ some (line_at (take start before) after)
unfolding erase_from
erase_from-line_at start before after h =
    let (rest, e, (whole, _)) =
      drain-Safe start (length before) (before ++ after) h
        (omega (arith, length-append before after)) in
    rw e (
      ap some (
        ap (λ b. record { buffer = b; cursor_pos = start; selection_anchor = none })
          (whole ∙ rw (take-append_le start before after h, drop-append before after) refl)
        ∙ sym (line_at_eq start before after h)))

pub truncate-line_at :
    (before after : Text) → truncate (line_at before after) ≡ some (line_at before [])
unfolding truncate
truncate-line_at before after = rw (take-append before after, append-nil before) refl
