-- ===== src/Ranges/Braces/Commas.antt =====
-- The elements that `split_top_level_commas` of src/ranges.rs finds.
use ion_win.Base.{
  ℕ, suc, ◌+◌, ◌≡◌, refl, sym, ◌∙◌, ap, inl, inr, ◌&&◌, List, [], ◌∷◌, ◌++◌, Text, join,
  if◌then◌else◌, ◌==◌, Bool-cases, length, length-append, arith,
}
use mathlib.Core.List.{append_assoc, append-nil}
use ion_win.Base.Int.{ℤ, pos, ◌+ℤ◌, ◌-ℤ◌}
use ion_win.Ranges.Braces.{
  open_brace, close_brace, comma, Split, is_zero, split_char, split_from, split_top_level_commas,
}

abbrev commas : List Text → Text
commas = join (comma ∷ [])

join-last :
    (ps : List Text) (p t : Text) → commas (ps ++ (p ++ t) ∷ []) ≡ commas (ps ++ p ∷ []) ++ t
unfolding join
join-last [] p t = refl
join-last (x ∷ []) p t = sym (append_assoc x (comma ∷ p) t)
join-last (x ∷ y ∷ ps) p t =
    rw (join-last (y ∷ ps) p t) (sym (append_assoc x (comma ∷ commas (y ∷ ps ++ p ∷ [])) t))

join-part :
    (ps : List Text) (p : Text)
    → commas ((ps ++ p ∷ []) ++ [] ∷ []) ≡ commas (ps ++ p ∷ []) ++ comma ∷ []
unfolding join
join-part [] p = refl
join-part (x ∷ []) p = sym (append_assoc x (comma ∷ p) (comma ∷ []))
join-part (x ∷ y ∷ ps) p =
    rw (join-part (y ∷ ps) p)
      (sym (append_assoc x (comma ∷ commas (y ∷ ps ++ p ∷ [])) (comma ∷ [])))

abbrev next_depth : ℕ → ℤ → ℤ
next_depth c depth =
    if c == open_brace then depth +ℤ pos 1 else if c == close_brace then depth -ℤ pos 1 else depth

abbrev cut : ℕ → ℤ → ℕ
cut c depth = if c == comma && is_zero depth then 1 else 0

-- The commas outside braces, from a depth on.
unfoldable pub top_commas : ℤ → Text → ℕ
unfolding ◌+ℤ◌ ◌-ℤ◌
top_commas depth [] = 0
top_commas depth (c ∷ text) = cut c depth + top_commas (next_depth c depth) text

abbrev read : Split → Text
read s = commas (s.parts ++ s.part ∷ [])

read-split_char : (c : ℕ) (s : Split) → read (split_char c s) ≡ read s ++ c ∷ []
unfolding split_char
read-split_char c s = elim (Bool-cases (c == open_brace)) [
  | inl opens ↦ rw (opens, split_char) (join-last s.parts s.part (c ∷ []))
  | inr e ↦ elim (Bool-cases (c == close_brace)) [
    | inl closes ↦ rw (e, closes, split_char) (join-last s.parts s.part (c ∷ []))
    | inr other ↦ elim (Bool-cases (c == comma && is_zero s.depth)) [
      | inl cuts ↦
          let here : c ≡ comma = ground (arith, cuts) in
          rw (e, other, cuts, split_char)
            (join-part s.parts s.part ∙ ap (λ c. read s ++ c ∷ []) (sym here))
      | inr keeps ↦ rw (e, other, keeps, split_char) (join-last s.parts s.part (c ∷ []))
    ]
  ]
]

depth-split_char : (c : ℕ) (s : Split) → (split_char c s).depth ≡ next_depth c s.depth
unfolding split_char
depth-split_char c s = ground arith

parts-split_char :
    (c : ℕ) (s : Split) → length (split_char c s).parts ≡ cut c s.depth + length s.parts
unfolding split_char
parts-split_char c s = ground (arith, length-append s.parts (s.part ∷ []))

join-split_from : (content : Text) (s : Split) → commas (split_from content s) ≡ read s ++ content
unfolding split_from
join-split_from [] s = sym (append-nil (read s))
join-split_from (c ∷ content) s =
    join-split_from content (split_char c s)
    ∙ ap (◌++ content) (read-split_char c s)
    ∙ append_assoc (read s) (c ∷ []) content

length-split_from :
    (content : Text) (s : Split)
    → length (split_from content s) ≡ suc (length s.parts) + top_commas s.depth content
unfolding split_from top_commas split_char
length-split_from [] s = omega (arith, length-append s.parts (s.part ∷ []))
length-split_from (c ∷ content) s =
    length-split_from content (split_char c s)
    ∙ rw (depth-split_char c s, parts-split_char c s) (omega arith)

-- The elements, joined by commas, are the content, and there is one more of them than the
-- content has commas outside braces.
pub join-split_top_level_commas :
    (content : Text)
    → (join (comma ∷ []) (split_top_level_commas content) ≡ content)
      × (length (split_top_level_commas content) ≡ 1 + top_commas (pos 0) content)
unfolding split_top_level_commas join
join-split_top_level_commas content = (
  join-split_from content (record { depth = pos 0; parts = []; part = [] }),
  length-split_from content (record { depth = pos 0; parts = []; part = [] }),
)
