-- ===== src/Editor/Bounds/Moves.antt =====
-- The places that the motions of src/editor.rs go to are within the buffer.
use ion_win.Base.{
  ℕ, zero, suc, ◌+◌, ◌-◌, ◌≤◌, ◌<◌, ◌≡◌, refl, inl, inr, Bool, none, List, [], ◌∷◌, Text, ◌==◌, leb,
  length, drop, get_elem?, length-drop, Bool-cases, arith,
}
use ion_win.Base.Chars.{is_whitespace}
use ion_win.Editor.Buffer.{
  Line, slice, drain, skip_back, in_word, prev_word_boundary, leading, next_word_boundary,
  Segmentation, prev_grapheme_boundary, next_grapheme_boundary, delete_previous_grapheme,
  delete_next_grapheme,
}
use ion_win.Editor.Bounds.{InBounds, Cuts, Safe, Safe-bind, slice-Safe, drain-Safe}

pub get_elem?-Safe :
    {A : Type 0} (b : List A) (i : ℕ) → i < length b → Safe (get_elem? b i) (λ c. Unit)
get_elem?-Safe [] i h = absurd (omega (arith, h))
get_elem?-Safe (c ∷ b) zero h = (c, refl, tt)
get_elem?-Safe (c ∷ b) (suc i) h = get_elem?-Safe b i (omega (arith, h))

skip_back-Safe :
    (p : ℕ → Bool) (b : Text) (i : ℕ) → i ≤ length b → Safe (skip_back p b i) (λ j. j ≤ i)
unfolding skip_back
skip_back-Safe p b zero h = (0, refl, omega arith)
skip_back-Safe p b (suc i) h =
    let (c, e, _) = get_elem?-Safe b i (omega (arith, h)) in
    elim (Bool-cases (p c)) [
      | inl yes' ↦
          let (j, ran, below) = skip_back-Safe p b i (omega (arith, h)) in
          (j, rw (skip_back, e, yes') ran, omega (arith, below))
      | inr no' ↦ (suc i, rw (skip_back, e, no') refl, omega arith)
    ]

pub prev_word_boundary-Safe :
    (b : Text) (pos : ℕ) → pos ≤ length b → Safe (prev_word_boundary b pos) (λ j. j ≤ pos)
unfolding prev_word_boundary
prev_word_boundary-Safe b pos h =
    Safe-bind (skip_back is_whitespace b pos) _ _ _ (skip_back-Safe is_whitespace b pos h)
      (λ i below.
        let (j, ran, lower) = skip_back-Safe in_word b i (omega (arith, below, h)) in
        (j, ran, omega (arith, lower, below)))

leading-le : (p : ℕ → Bool) (b : Text) → leading p b ≤ length b
unfolding leading
leading-le p [] = omega arith
leading-le p (c ∷ b) = elim (Bool-cases (p c)) [
  | inl e ↦ rw (e, leading) (omega (arith, leading-le p b))
  | inr e ↦ rw (e, leading) (omega arith)
]

pub next_word_boundary_bounds :
    (b : Text) (pos : ℕ)
    → pos ≤ length b
    → (pos ≤ next_word_boundary b pos) × (next_word_boundary b pos ≤ length b)
unfolding next_word_boundary
next_word_boundary_bounds b pos h =
    let i : ℕ = pos + leading in_word (drop pos b) in
    (
      omega arith,
      omega (
        arith,
        leading-le in_word (drop pos b),
        length-drop pos b,
        leading-le is_whitespace (drop i b),
        length-drop i b,
      ),
    )

module _ (seg : Segmentation) (cuts : Cuts seg) where
  pub prev_grapheme_boundary-Safe :
      (b : Text) (pos : ℕ) → pos ≤ length b → Safe (prev_grapheme_boundary seg b pos) (λ j. j ≤ pos)
  unfolding prev_grapheme_boundary
  prev_grapheme_boundary-Safe b pos h = elim (Bool-cases (pos == 0)) [
    | inl start ↦ (0, rw start refl, omega arith)
    | inr inside ↦
        rw (inside, prev_grapheme_boundary)
          (Safe-bind (slice 0 pos b) _ _ _ (slice-Safe 0 pos b (omega arith) h)
            (λ prefix n. (pos - seg.last prefix, refl, omega arith)))
  ]

  pub next_grapheme_boundary-Safe :
      (b : Text) (pos : ℕ)
      → pos ≤ length b
      → Safe (next_grapheme_boundary seg b pos) (λ j. (pos ≤ j) × (j ≤ length b))
  unfolding next_grapheme_boundary
  next_grapheme_boundary-Safe b pos h = elim (Bool-cases (leb (length b) pos)) [
    | inl at_end ↦ (length b, rw at_end refl, (omega (arith, h), omega arith))
    | inr inside ↦
        rw (inside, next_grapheme_boundary)
          (Safe-bind (slice pos (length b) b) _ _ _ (slice-Safe pos (length b) b h (omega arith))
            (λ suffix n. (
              pos + seg.first suffix,
              refl,
              (omega arith, omega (arith, n, cuts.first_le suffix, h)),
            )))
  ]

  pub delete_previous_grapheme-Safe :
      (l : Line)
      → l.cursor_pos ≤ length l.buffer
      → l.selection_anchor ≡ none
      → Safe (delete_previous_grapheme seg l) InBounds
  unfolding delete_previous_grapheme
  delete_previous_grapheme-Safe l h clear =
      Safe-bind (prev_grapheme_boundary seg l.buffer l.cursor_pos) _ _ _
        (prev_grapheme_boundary-Safe l.buffer l.cursor_pos h)
        (λ start below. elim (Bool-cases (start == l.cursor_pos)) [
          | inl same ↦ rw same (l, refl, record { cursor = h; anchor = rw clear tt })
          | inr apart ↦ rw apart (
              Safe-bind (drain start l.cursor_pos l.buffer) _ _ _
                (drain-Safe start l.cursor_pos l.buffer below h)
                (λ rest (e, n). (
                  record l { buffer = rest; cursor_pos = start },
                  refl,
                  record { cursor = omega (arith, n, below, h); anchor = rw clear tt },
                )))
        ])

  pub delete_next_grapheme-Safe :
      (l : Line)
      → l.cursor_pos ≤ length l.buffer
      → l.selection_anchor ≡ none
      → Safe (delete_next_grapheme seg l) InBounds
  unfolding delete_next_grapheme
  delete_next_grapheme-Safe l h clear =
      Safe-bind (next_grapheme_boundary seg l.buffer l.cursor_pos) _ _ _
        (next_grapheme_boundary-Safe l.buffer l.cursor_pos h)
        (λ end (lo, hi). elim (Bool-cases (end == l.cursor_pos)) [
          | inl same ↦ rw same (l, refl, record { cursor = h; anchor = rw clear tt })
          | inr apart ↦ rw apart (
              Safe-bind (drain l.cursor_pos end l.buffer) _ _ _
                (drain-Safe l.cursor_pos end l.buffer lo hi)
                (λ rest (e, n). (
                  record l { buffer = rest },
                  refl,
                  record { cursor = omega (arith, n, lo, hi); anchor = rw clear tt },
                )))
        ])
