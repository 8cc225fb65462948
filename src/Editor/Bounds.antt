-- ===== src/Editor/Bounds.antt =====
-- The operations of the edit buffer of src/editor.rs stay within the buffer: no index or slice is
-- out of range, and the cursor and the anchor remain places of it.
pub mod Moves
use ion_win.Base.{
  subst, ℕ, zero, suc, ◌+◌, ◌-◌, ◌≤◌, ◌<◌, ◌≡◌, refl, sym, ◌∙◌, ap, inl, inr, Bool, true, false,
  ◌&&◌, Option, none, some, List, [], ◌∷◌, ◌++◌, Text, if◌then◌else◌, ◌==◌, ltb, leb, length, take,
  drop, get_elem?, length-append, take-append, drop-append, take_all, length-take, length-drop,
  Bool-cases, Option-cases, arith,
}
use ion_win.Editor.Buffer.{
  ◌>>=◌, Line, slice, drain, splice, selection_range, delete_range, delete_selection, insert_text,
  extend_selection, skip_back, in_word, prev_word_boundary, leading, next_word_boundary,
  Segmentation, prev_grapheme_boundary, next_grapheme_boundary, delete_previous_grapheme,
  delete_next_grapheme,
}

abbrev pub AnchorOk : ℕ → Option ℕ → Type 0
AnchorOk n none = Unit
AnchorOk n (some anchor) = anchor ≤ n

pub record InBounds (l : Line) : Type 0 where
  pub cursor : l.cursor_pos ≤ length l.buffer
  pub anchor : AnchorOk (length l.buffer) l.selection_anchor

-- A grapheme cluster of a text is no longer than the text.
pub record Cuts (seg : Segmentation) : Type 0 where
  pub first_le : (text : Text) → seg.first text ≤ length text
  pub last_le : (text : Text) → seg.last text ≤ length text

-- It does not panic, and the result is as said.
abbrev pub Safe : {A : Type 0} → Option A → (A → Type 0) → Type 0
Safe {A} o P = (a : A) × (o ≡ some a) × P a

pub Safe-bind :
    {A B : Type 0} (m : Option A) (f : A → Option B) (P : A → Type 0) (Q : B → Type 0)
    → Safe m P
    → ((a : A) → P a → Safe (f a) Q)
    → Safe (m >>= f) Q
Safe-bind m f P Q (a, e, p) next = rw e (next a p)

pub drain-Safe :
    (start end : ℕ) (b : Text)
    → start ≤ end
    → end ≤ length b
    → Safe
        (drain start end b)
        (λ rest. (rest ≡ take start b ++ drop end b) × (length rest ≡ length b - (end - start)))
unfolding drain
drain-Safe start end b lo hi = (
  take start b ++ drop end b,
  ground arith,
  (
    refl,
    omega
        (arith, length-append (take start b) (drop end b), length-take start b, length-drop end b),
  ),
)

pub splice-Safe :
    (i : ℕ) (text b : Text)
    → i ≤ length b
    → Safe
        (splice i text b)
        (λ out. (out ≡ take i b ++ (text ++ drop i b)) × (length out ≡ length text + length b))
unfolding splice
splice-Safe i text b hi = (
  take i b ++ (text ++ drop i b),
  ground arith,
  (
    refl,
    omega (
      arith,
      length-append (take i b) (text ++ drop i b),
      length-append text (drop i b),
      length-take i b,
      length-drop i b,
    ),
  ),
)

pub slice-Safe :
    (start end : ℕ) (b : Text)
    → start ≤ end
    → end ≤ length b
    → Safe (slice start end b) (λ out. length out ≡ end - start)
unfolding slice
slice-Safe start end b lo hi = (
  take (end - start) (drop start b),
  ground arith,
  omega (arith, length-take (end - start) (drop start b), length-drop start b),
)

-- Nothing selected is left behind.
pub record IsDeleted (l : Line) : Type 0 where
  pub cursor : l.cursor_pos ≤ length l.buffer
  pub clear : l.selection_anchor ≡ none

pub IsDeleted-InBounds : (l : Line) → IsDeleted l → InBounds l
IsDeleted-InBounds l v = record { cursor = v.cursor; anchor = rw v.clear tt }

abbrev pub RangeOk : ℕ → Option (ℕ × ℕ) → Type 0
RangeOk n none = Unit
RangeOk n (some (start, end)) = (start < end) × (end ≤ n)

pub selection_range-RangeOk :
    (n : ℕ) (anchor : Option ℕ) (cursor : ℕ)
    → AnchorOk n anchor
    → cursor ≤ n
    → RangeOk n (selection_range anchor cursor)
unfolding selection_range
selection_range-RangeOk n none cursor a c = tt
selection_range-RangeOk n (some anchor) cursor a c = elim (Bool-cases (anchor == cursor)) [
  | inl same ↦ rw same tt
  | inr apart ↦ elim (Bool-cases (ltb anchor cursor)) [
    | inl left ↦ rw (apart, left) (ground arith, c)
    | inr right ↦ rw (apart, right) (ground arith, a)
  ]
]

delete_range-Safe :
    (range : Option (ℕ × ℕ)) (l : Line)
    → InBounds l
    → RangeOk (length l.buffer) range
    → Safe (delete_range range l) (λ d. IsDeleted d.0)
unfolding delete_range
delete_range-Safe none l v r = (
  (record l { selection_anchor = none }, false),
  refl,
  record { cursor = v.cursor; clear = refl },
)
delete_range-Safe (some (start, end)) l v r =
    Safe-bind (drain start end l.buffer) _ _ _
      (drain-Safe start end l.buffer (omega (arith, r.0)) r.1)
      (λ rest (e, n). (
        (record { buffer = rest; cursor_pos = start; selection_anchor = none }, true),
        refl,
        record { cursor = omega (arith, n, r.0, r.1); clear = refl },
      ))

pub delete_selection-Safe : (l : Line) → InBounds l → Safe (delete_selection l) (λ d. IsDeleted d.0)
unfolding delete_selection
delete_selection-Safe l v =
    delete_range-Safe (selection_range l.selection_anchor l.cursor_pos) l v
      (selection_range-RangeOk (length l.buffer) l.selection_anchor l.cursor_pos v.anchor v.cursor)

pub insert_text-Safe : (text : Text) (l : Line) → InBounds l → Safe (insert_text text l) InBounds
unfolding insert_text
insert_text-Safe text l v =
    Safe-bind (delete_selection l) _ _ _ (delete_selection-Safe l v) (λ (d, b) w.
      Safe-bind (splice d.cursor_pos text d.buffer) _ _ _
        (splice-Safe d.cursor_pos text d.buffer w.cursor)
        (λ out (e, n). (
          record d { buffer = out; cursor_pos = d.cursor_pos + length text },
          refl,
          record { cursor = omega (arith, n, w.cursor); anchor = rw w.clear tt },
        )))

pub slice-append : (a b : Text) → slice 0 (length a) (a ++ b) ≡ some a
unfolding slice
slice-append a b =
    let start : leb 0 (length a) ≡ true = ground arith in
    let within : leb (length a) (length (a ++ b)) ≡ true = ground (arith, length-append a b) in
    let whole : take (length a - 0) (a ++ b) ≡ a =
      subst (λ n. take n (a ++ b) ≡ a) (omega arith) (take-append a b) in
    rw (start, within, whole) refl

pub slice-suffix : (a b : Text) → slice (length a) (length (a ++ b)) (a ++ b) ≡ some b
unfolding slice
slice-suffix a b =
    let start : leb (length a) (length (a ++ b)) ≡ true = ground (arith, length-append a b) in
    let end : leb (length (a ++ b)) (length (a ++ b)) ≡ true = ground arith in
    let whole : take (length (a ++ b) - length a) (drop (length a) (a ++ b)) ≡ b =
      ap (take (length (a ++ b) - length a)) (drop-append a b)
      ∙ take_all (length (a ++ b) - length a) b (omega (arith, length-append a b)) in
    rw (start, end, whole) refl
