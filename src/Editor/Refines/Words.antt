-- ===== src/Editor/Refines/Words.antt =====
-- The words and the grapheme clusters of src/editor.rs in a buffer that is two texts around the
-- cursor.
use mathlib.Core.List.{append_assoc}
use ion_win.Base.{
  drop-nil, ◌⊎◌, subst, ℕ, zero, suc, ◌+◌, ◌-◌, ◌≤◌, ◌≡◌, refl, sym, ◌∙◌, ap, inl, inr, Bool, true,
  false, ◌&&◌, none, some, [], ◌∷◌, ◌++◌, Text, if◌then◌else◌, ◌==◌, leb, length, take, drop,
  get_elem?, Bool-cases, arith, is_empty, length-append, take-append, take-append_le, take_all,
  take-append-drop,
}
use ion_win.Base.Chars.{is_whitespace}
use ion_win.Editor.Buffer.{
  ◌>>=◌, in_word, Segmentation, skip_back, prev_word_boundary, prev_grapheme_boundary,
  next_grapheme_boundary, delete_previous_grapheme, delete_next_grapheme,
}
use ion_win.Editor.Bounds.{slice-append, slice-suffix, Cuts, drain-Safe}
use ion_win.Editor.Actions.{erase_from, erase_word_back}
use ion_win.Editor.Refines.{trim_back, trim_step}
use ion_win.Editor.Refines.Pieces.{drop_beyond, line_at, erase_from-line_at}

-- What a text is without the characters of a class at its end, read from the front.
trim_back-length : (p : ℕ → Bool) (text : Text) → length (trim_back p text) ≤ length text
unfolding trim_back
trim_back-length p [] = omega arith
trim_back-length p (c ∷ text) = elim (Bool-cases (is_empty (trim_back p text) && p c)) [
  | inl e ↦ rw (trim_back, e) (omega arith)
  | inr e ↦ rw (trim_back, e) (omega (arith, trim_back-length p text))
]

trim_back-take :
    (p : ℕ → Bool) (text : Text) → take (length (trim_back p text)) text ≡ trim_back p text
unfolding trim_back
trim_back-take p [] = refl
trim_back-take p (c ∷ text) = elim (Bool-cases (is_empty (trim_back p text) && p c)) [
  | inl e ↦ rw (trim_back, e) refl
  | inr e ↦ rw (trim_back, e) (ap (λ t. c ∷ t) (trim_back-take p text))
]

trim_back-snoc :
    (p : ℕ → Bool) (text : Text) (d : ℕ)
    → trim_back p (text ++ (d ∷ [])) ≡ (if p d then trim_back p text else text ++ (d ∷ []))
unfolding trim_back
trim_back-snoc p [] d = elim (Bool-cases (p d)) [ inl e ↦ rw e refl | inr e ↦ rw e refl ]
trim_back-snoc p (c ∷ text) d =
    ap (trim_step p c) (trim_back-snoc p text d)
    ∙ (elim (Bool-cases (p d)) [ inl e ↦ rw e refl | inr e ↦ rw (e, is_empty-snoc text d) refl ])
  where
    is_empty-snoc : (text : Text) (d : ℕ) → is_empty (text ++ (d ∷ [])) ≡ false
    is_empty-snoc [] d = refl
    is_empty-snoc (c ∷ text) d = refl

get_elem?-middle :
    (text : Text) (d : ℕ) (after : Text) → get_elem? (text ++ (d ∷ after)) (length text) ≡ some d
get_elem?-middle [] d after = refl
get_elem?-middle (c ∷ text) d after = get_elem?-middle text d after

-- A text is empty or ends in a character.
snoc_cases : (text : Text) → (text ≡ []) ⊎ ((front : Text) × (d : ℕ) × (text ≡ front ++ (d ∷ [])))
snoc_cases [] = inl refl
snoc_cases (c ∷ text) = elim (snoc_cases text) [
  | inl e ↦ inr ([], c, rw e refl)
  | inr (front, d, e) ↦ inr (c ∷ front, d, ap (λ t. c ∷ t) e)
]

skip_back-trim_back :
    (n : ℕ) (p : ℕ → Bool) (before after : Text)
    → length before ≡ n
    → skip_back p (before ++ after) n ≡ some (length (trim_back p before))
unfolding skip_back trim_back
skip_back-trim_back zero p [] after h = refl
skip_back-trim_back zero p (c ∷ before) after h = absurd (omega (arith, h))
skip_back-trim_back (suc n) p before after h = elim (snoc_cases before) [
  | inl e ↦ absurd (omega (arith, h, ap length e))
  | inr (front, d, e) ↦
      let same : length front ≡ n = omega (arith, h, ap length e, length-append front (d ∷ [])) in
      let whole : before ++ after ≡ front ++ (d ∷ after) =
        ap (λ b. b ++ after) e ∙ append_assoc front (d ∷ []) after in
      let found : get_elem? (before ++ after) n ≡ some d =
        ap (λ t. get_elem? t n) whole
        ∙ subst (λ k. get_elem? (front ++ (d ∷ after)) k ≡ some d) same
            (get_elem?-middle front d after) in
      let cut : trim_back p before ≡ (if p d then trim_back p front else front ++ (d ∷ [])) =
        ap (trim_back p) e ∙ trim_back-snoc p front d in
      elim (Bool-cases (p d)) [
        | inl f ↦
            let cut' : trim_back p front ≡ trim_back p before = sym (cut ∙ rw f refl) in
            rw (skip_back, found, f)
              (ap (λ t. skip_back p t n) whole
                ∙ skip_back-trim_back n p front (d ∷ after) same
                ∙ ap (λ t. some (length t)) cut')
        | inr f ↦
            let cut' : before ≡ trim_back p before = e ∙ sym (cut ∙ rw f refl) in
            rw (skip_back, found, f) (ap some (sym h) ∙ ap (λ t. some (length t)) cut')
      ]
]

prev_word_boundary-trim_back :
    (before after : Text)
    → prev_word_boundary (before ++ after) (length before)
      ≡ some (length (trim_back in_word (trim_back is_whitespace before)))
unfolding prev_word_boundary
prev_word_boundary-trim_back before after =
    let front : Text = trim_back is_whitespace before in
    let n : ℕ = length front in
    let whole : before ++ after ≡ front ++ (drop n before ++ after) =
      ap (λ b. b ++ after)
        (sym (take-append-drop n before)
          ∙ ap (λ t. t ++ drop n before) (trim_back-take is_whitespace before))
      ∙ append_assoc front (drop n before) after in
    ap (λ o. o >>= λ i. skip_back in_word (before ++ after) i)
      (skip_back-trim_back (length before) is_whitespace before after refl)
    ∙ ap (λ t. skip_back in_word t n) whole
    ∙ skip_back-trim_back n in_word front (drop n before ++ after) refl

pub erase_word_back-line_at :
    (before after : Text)
    → erase_word_back (line_at before after)
      ≡ some (line_at (trim_back in_word (trim_back is_whitespace before)) after)
unfolding erase_word_back
erase_word_back-line_at before after =
    let front : Text = trim_back is_whitespace before in
    let start : Text = trim_back in_word front in
    let within : length start ≤ length before =
      omega (arith, trim_back-length in_word front, trim_back-length is_whitespace before) in
    let prefix : take (length start) before ≡ start =
      ap (take (length start)) (
        sym (take-append-drop (length front) before)
        ∙ ap (λ t. t ++ drop (length front) before) (trim_back-take is_whitespace before))
      ∙ take-append_le (length start) front (drop (length front) before)
          (trim_back-length in_word front)
      ∙ trim_back-take in_word front in
    ap (λ o. o >>= λ i. erase_from i (line_at before after))
      (prev_word_boundary-trim_back before after)
    ∙ erase_from-line_at (length start) before after within
    ∙ ap (λ t. some (line_at t after)) prefix

module _ (seg : Segmentation) (cuts : Cuts seg) where
  prev_grapheme_boundary-line_at :
      (before after : Text)
      → prev_grapheme_boundary seg (before ++ after) (length before)
        ≡ some (length before - seg.last before)
  unfolding prev_grapheme_boundary
  prev_grapheme_boundary-line_at before after = elim (Bool-cases (length before == 0)) [
    | inl e ↦ rw e (ap some (ground arith))
    | inr e ↦ rw (e, slice-append before after) refl
  ]

  pub delete_previous_grapheme-line_at :
      (before after : Text)
      → delete_previous_grapheme seg (line_at before after)
        ≡ some (line_at (take (length before - seg.last before) before) after)
  unfolding delete_previous_grapheme erase_from
  delete_previous_grapheme-line_at before after =
      let start : ℕ = length before - seg.last before in
      rw (prev_grapheme_boundary-line_at before after) (elim (Bool-cases (start == length before)) [
        | inl e ↦
            rw e (ap (λ t. some (line_at t after)) (sym (take_all start before (ground arith))))
        | inr e ↦ rw e (erase_from-line_at start before after (omega arith))
      ])

  delete_next_nil :
      (before : Text) → delete_next_grapheme seg (line_at before []) ≡ some (line_at before [])
  unfolding delete_next_grapheme next_grapheme_boundary
  delete_next_nil before =
      let at_end : leb (length (before ++ [])) (length before) ≡ true =
        ground (arith, length-append before []) in
      let same : (length (before ++ []) == length before) ≡ true =
        ground (arith, length-append before []) in
      rw (at_end, same) refl

  delete_next_some :
      (before : Text) (c : ℕ) (rest : Text)
      → delete_next_grapheme seg (line_at before (c ∷ rest))
        ≡ some (line_at before (drop (seg.first (c ∷ rest)) (c ∷ rest)))
  unfolding delete_next_grapheme next_grapheme_boundary
  delete_next_some before c rest =
      let after : Text = c ∷ rest in
      let n : ℕ = seg.first after in
      let inside : leb (length (before ++ after)) (length before) ≡ false =
        ground (arith, length-append before after) in
      let (left_over, e, (whole, _)) =
        drain-Safe (length before) (length before + n) (before ++ after) (omega arith)
          (omega (arith, length-append before after, cuts.first_le after)) in
      rw (inside, slice-suffix before after)
        (elim (Bool-cases (length before + n == length before)) [
          | inl f ↦
              let none_cut : 0 ≡ n = ground arith in
              rw f (ap (λ k. some (line_at before (drop k after))) none_cut)
          | inr f ↦
              let joined : left_over ≡ before ++ drop n after =
                whole ∙ rw (take-append before after, drop_beyond n before after) refl in
              rw (f, e)
                (ap
                  (λ b.
                    some
                      (record { buffer = b; cursor_pos = length before; selection_anchor = none }))
                  joined)
        ])

  pub delete_next_grapheme-line_at :
      (before after : Text)
      → delete_next_grapheme seg (line_at before after)
        ≡ some (line_at before (drop (seg.first after) after))
  delete_next_grapheme-line_at before [] =
      delete_next_nil before ∙ ap (λ t. some (line_at before t)) (sym (drop-nil (seg.first [])))
  delete_next_grapheme-line_at before (c ∷ rest) = delete_next_some before c rest
