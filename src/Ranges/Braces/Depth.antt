-- ===== src/Ranges/Braces/Depth.antt =====
-- Braces that match, and segments of a word.
use ion_win.Base.{
  ℕ, ◌+◌, ◌-◌, ◌≡◌, refl, sym, ◌∙◌, ◌≢◌, Bool, true, false, ◌||◌, Option, none, some, List, [], ◌∷◌,
  ◌++◌, Text, if◌then◌else◌, ◌==◌,
}
use ion_win.Ranges.Braces.{open_brace, close_brace, BraceSegment, literal, group}

abbrev pub depth_step : ℕ → ℕ → Option ℕ
depth_step c depth =
    if c == open_brace
    then some (depth + 1)
    else if c == close_brace
    then (if depth == 0 then none else some (depth - 1))
    else some depth

-- The braces that are open behind a text; `none` if one closes that was not open.
unfoldable pub depth_after : ℕ → Text → Option ℕ
depth_after depth [] = some depth
depth_after depth (c ∷ text) = elim (depth_step c depth) [
  | none ↦ none
  | some depth ↦ depth_after depth text
]

pub depth_after-push :
    (c : ℕ) (text : Text) (from to : ℕ)
    → depth_after from text ≡ some to
    → depth_after from (text ++ c ∷ []) ≡ depth_step c to
unfolding depth_after
depth_after-push c [] from to h = let same : from ≡ to = cc h in rw same (single (depth_step c to))
  where
    single :
        (next : Option ℕ) → elim next [ none ↦ none | some depth ↦ depth_after depth [] ] ≡ next
    single none = refl
    single (some depth) = refl
depth_after-push c (d ∷ text) from to h = go (depth_step d from) refl (depth_after-push c text)
  where
    go :
        (next : Option ℕ)
        → depth_step d from ≡ next
        → ((from to : ℕ)
            → depth_after from text ≡ some to
            → depth_after from (text ++ c ∷ []) ≡ depth_step c to)
        → depth_after from (d ∷ text ++ c ∷ []) ≡ depth_step c to
    go none e again =
        let ran : depth_after from (d ∷ text) ≡ none = rw (depth_after, e) refl in
        absurd (cc (ran, h))
    go (some depth) e again =
        let ran : depth_after from (d ∷ text) ≡ depth_after depth text = rw (depth_after, e) refl in
        rw (depth_after, e) (again depth to (sym ran ∙ h))

abbrev pub IsSegment : BraceSegment → Type 0
IsSegment (literal text) = text ≢ []
IsSegment (group content) = (content ≢ []) × (depth_after 0 content ≡ some 0)

unfoldable pub any_group : List BraceSegment → Bool
any_group [] = false
any_group (literal _ ∷ segments) = any_group segments
any_group (group _ ∷ segments) = true

pub any_group-append :
    (xs ys : List BraceSegment) → any_group (xs ++ ys) ≡ (any_group xs || any_group ys)
unfolding any_group
any_group-append [] ys = refl
any_group-append (literal _ ∷ xs) ys = any_group-append xs ys
any_group-append (group _ ∷ xs) ys = refl
