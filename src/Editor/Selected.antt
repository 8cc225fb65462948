-- ===== src/Editor/Selected.antt =====
-- The mark of the selection in src/editor.rs: `apply_selection_highlight` inserts escape sequences
-- into a text that has some already.
use ion_win.Base.{
  subst, ℕ, ◌+◌, ◌≡◌, refl, sym, ◌∙◌, ap, inl, inr, Bool, true, false, ◌&&◌, [], ◌∷◌, ◌++◌, Text,
  if◌then◌else◌, ◌==◌, ltb, leb, Bool-cases,
}

-- `ESC [ 7 m`
abbrev pub reverse_on : Text
reverse_on = 27 ∷ 91 ∷ 55 ∷ 109 ∷ []

-- `ESC [ 2 7 m`
abbrev pub reverse_off : Text
reverse_off = 27 ∷ 91 ∷ 50 ∷ 55 ∷ 109 ∷ []

-- `chars.peek() == Some(&'[')`
abbrev pub opens_bracket : Text → Bool
opens_bracket [] = false
opens_bracket (c ∷ text) = c == 91

unfoldable pub escape_end : (start end visible : ℕ) → Text
escape_end start end visible = if leb start visible && ltb visible end then reverse_on else []

unfoldable pub before_visible : (start end visible : ℕ) → Text
before_visible start end visible =
    (if visible == start then reverse_on else []) ++ (if visible == end then reverse_off else [])

-- The loop, and its inner loop over an escape sequence, which ends at an `m`.
unfoldable pub mark : (start end : ℕ) (in_escape : Bool) (visible : ℕ) → Text → Text
unfolding escape_end before_visible
mark start end in_escape visible [] = if visible == end then reverse_off else []
mark start end true visible (c ∷ chars) = c ∷ (elim (c == 109) [
  | true ↦ escape_end start end visible ++ mark start end false visible chars
  | false ↦ mark start end true visible chars
])
mark start end false visible (c ∷ chars) = elim (c == 27 && opens_bracket chars) [
  | true ↦ c ∷ mark start end true visible chars
  | false ↦ before_visible start end visible ++ (c ∷ mark start end false (visible + 1) chars)
]

unfoldable pub apply_selection_highlight : Text → ℕ × ℕ → Text
unfolding mark
apply_selection_highlight rendered (start, end) = mark start end false 0 rendered

-- The characters outside the escape sequences.
unfoldable pub visible_text : (in_escape : Bool) → Text → Text
visible_text in_escape [] = []
visible_text true (c ∷ chars) = elim (c == 109) [
  | true ↦ visible_text false chars
  | false ↦ visible_text true chars
]
visible_text false (c ∷ chars) = elim (c == 27 && opens_bracket chars) [
  | true ↦ visible_text true chars
  | false ↦ c ∷ visible_text false chars
]

module _ (start end : ℕ) where
  visible_text-escape_end :
      (visible : ℕ) (text : Text)
      → visible_text false (escape_end start end visible ++ text) ≡ visible_text false text
  unfolding escape_end visible_text
  visible_text-escape_end visible text = elim (Bool-cases (leb start visible && ltb visible end)) [
    | inl e ↦ rw e refl
    | inr e ↦ rw e refl
  ]

  visible_text-before_visible :
      (visible : ℕ) (text : Text)
      → visible_text false (before_visible start end visible ++ text) ≡ visible_text false text
  unfolding before_visible visible_text
  visible_text-before_visible visible text = elim (Bool-cases (visible == start)) [
    | inl e ↦ elim (Bool-cases (visible == end)) [ inl f ↦ rw (e, f) refl | inr f ↦ rw (e, f) refl ]
    | inr e ↦ elim (Bool-cases (visible == end)) [ inl f ↦ rw (e, f) refl | inr f ↦ rw (e, f) refl ]
  ]

  -- What is inserted before a text that does not open with a bracket does not open with one.
  mark-opens_bracket :
      (visible : ℕ) (text : Text)
      → opens_bracket text ≡ false
      → opens_bracket (mark start end false visible text) ≡ false
  unfolding mark before_visible
  mark-opens_bracket visible [] h = elim (Bool-cases (visible == end)) [
    | inl e ↦ rw e refl
    | inr e ↦ rw e refl
  ]
  mark-opens_bracket visible (c ∷ chars) h = elim (Bool-cases (c == 27 && opens_bracket chars)) [
    | inl e ↦ rw (mark, e) h
    | inr e ↦ elim (Bool-cases (visible == start)) [
      | inl f ↦ rw (mark, e, f) refl
      | inr f ↦ elim (Bool-cases (visible == end)) [
        | inl g ↦ rw (mark, e, f, g) refl
        | inr g ↦ rw (mark, e, f, g) h
      ]
    ]
  ]

  mark-in_escape :
      (visible : ℕ) (text : Text)
      → opens_bracket text ≡ true
      → opens_bracket (mark start end true visible text) ≡ true
  unfolding mark
  mark-in_escape visible [] h = absurd (cc h)
  mark-in_escape visible (c ∷ chars) h = h

  no_escape :
      (c visible : ℕ) (chars : Text)
      → (c == 27 && opens_bracket chars) ≡ false
      → (c == 27 && opens_bracket (mark start end false visible chars)) ≡ false
  no_escape c visible chars h = elim (Bool-cases (c == 27)) [
    | inl e ↦
        rw e
          (mark-opens_bracket visible chars (subst (λ b. (b && opens_bracket chars) ≡ false) e h))
    | inr e ↦ rw e refl
  ]

  in_escape :
      (c visible : ℕ) (chars : Text)
      → (c == 27 && opens_bracket chars) ≡ true
      → (c == 27 && opens_bracket (mark start end true visible chars)) ≡ true
  in_escape c visible chars h = elim (Bool-cases (c == 27)) [
    | inl e ↦
        rw e (mark-in_escape visible chars (subst (λ b. (b && opens_bracket chars) ≡ true) e h))
    | inr e ↦ absurd (cc (e, h))
  ]

  mark_step :
      (visible c : ℕ) (chars : Text) (m : Bool)
      → (c == 109) ≡ m
      → mark start end true visible (c ∷ chars)
        ≡ c ∷ (elim m [
          | true ↦ escape_end start end visible ++ mark start end false visible chars
          | false ↦ mark start end true visible chars
        ])
  unfolding mark
  mark_step visible c chars m e = rw e refl

  visible_step :
      (c : ℕ) (chars : Text) (m : Bool)
      → (c == 109) ≡ m
      → visible_text true (c ∷ chars)
        ≡ (elim m [ true ↦ visible_text false chars | false ↦ visible_text true chars ])
  unfolding visible_text
  visible_step c chars m e = rw (visible_text, e) refl

  mark-visible_text :
      (inside : Bool) (visible : ℕ) (text : Text)
      → visible_text inside (mark start end inside visible text) ≡ visible_text inside text
  unfolding mark visible_text
  mark-visible_text true visible [] = elim (Bool-cases (visible == end)) [
    | inl e ↦ rw e refl
    | inr e ↦ rw e refl
  ]
  mark-visible_text false visible [] = elim (Bool-cases (visible == end)) [
    | inl e ↦ rw e refl
    | inr e ↦ rw e refl
  ]
  mark-visible_text true visible (c ∷ chars) = elim (Bool-cases (c == 109)) [
    | inl e ↦
        ap (visible_text true) (mark_step visible c chars true e)
        ∙ visible_step c (escape_end start end visible ++ mark start end false visible chars) true e
        ∙ visible_text-escape_end visible (mark start end false visible chars)
        ∙ mark-visible_text false visible chars
        ∙ sym (visible_step c chars true e)
    | inr e ↦
        ap (visible_text true) (mark_step visible c chars false e)
        ∙ visible_step c (mark start end true visible chars) false e
        ∙ mark-visible_text true visible chars
        ∙ sym (visible_step c chars false e)
  ]
  mark-visible_text false visible (c ∷ chars) = elim (Bool-cases (c == 27 && opens_bracket chars)) [
    | inl e ↦
        rw (mark, e)
          (rw (visible_text, in_escape c visible chars e, e) (mark-visible_text true visible chars))
    | inr e ↦
        let later = mark-visible_text false (visible + 1) chars in
        rw (mark, e)
          (visible_text-before_visible visible (c ∷ mark start end false (visible + 1) chars)
            ∙ rw (visible_text, no_escape c (visible + 1) chars e, e) (ap (λ t. c ∷ t) later))
  ]

-- Whatever escape sequences a text has, and whatever the range is: marking the selection leaves
-- the characters outside the escape sequences as they are.
pub apply_selection_highlight-visible_text :
    (rendered : Text) (start end : ℕ)
    → visible_text false (apply_selection_highlight rendered (start, end))
      ≡ visible_text false rendered
unfolding apply_selection_highlight
apply_selection_highlight-visible_text rendered start end =
    mark-visible_text start end false 0 rendered
