-- ===== src/Methods/Paths.antt =====
-- The parts of a path that methods of src/methods.rs give.
use ion_win.Base.{
  ℕ, ◌≡◌, refl, ◌∙◌, ap, inl, inr, true, false, none, some, List, [], ◌∷◌, ◌++◌, Text, contains, ok,
  ◌==◌, ==_iff, Bool-cases, Option-cases, arith, subst, ◌⊎◌,
}
use ion_win.Methods.{
  MethodArg, as_str, arg_str, slash, dot, rsplit_once, base_of, extension_of, filename_of,
  parent_of, basename, extension, filename, parent,
}

-- A text is cut at the last place of a character.
record IsCut (c : ℕ) (s before behind : Text) : Type 0 where
  whole : s ≡ before ++ c ∷ behind
  last : contains behind c ≡ false

rsplit_once-none : (c : ℕ) (s : Text) → rsplit_once c s ≡ none → contains s c ≡ false
unfolding rsplit_once contains
rsplit_once-none c [] h = refl
rsplit_once-none c (d ∷ s) h = elim (Option-cases (rsplit_once c s)) [
  | inl absent ↦ elim (Bool-cases (d == c)) [
    | inl here ↦
        let ran : rsplit_once c (d ∷ s) ≡ some ([], s) = rw (rsplit_once, absent, here) refl in
        absurd (cc (ran, h))
    | inr other ↦ rw (other, contains) (rsplit_once-none c s absent)
  ]
  | inr (parts, found) ↦
      let ran : rsplit_once c (d ∷ s) ≡ some (d ∷ parts.0, parts.1) =
        rw (rsplit_once, found) refl in
      absurd (cc (ran, h))
]

rsplit_once-IsCut :
    (c : ℕ) (s : Text) (parts : Text × Text)
    → rsplit_once c s ≡ some parts
    → IsCut c s parts.0 parts.1
unfolding rsplit_once
rsplit_once-IsCut c [] parts h = absurd (cc h)
rsplit_once-IsCut c (d ∷ s) parts h = elim (Option-cases (rsplit_once c s)) [
  | inl absent ↦ elim (Bool-cases (d == c)) [
    | inl here ↦
        let same : ([], s) ≡ parts = cc (absent, here, h) in
        subst (λ p. IsCut c (d ∷ s) p.0 p.1) same
          (record { whole = ap (◌∷ s) ((==_iff d c).0 here); last = rsplit_once-none c s absent })
    | inr other ↦ absurd (cc (absent, other, h))
  ]
  | inr (later, found) ↦
      let same : (d ∷ later.0, later.1) ≡ parts = cc (found, h) in
      let cut = rsplit_once-IsCut c s later found in
      subst (λ p. IsCut c (d ∷ s) p.0 p.1) same
        (record { whole = ap (d ∷◌) cut.whole; last = cut.last })
]

-- How a path divides: at its last slash, if it has one, into `parent` and `basename`, which has
-- none; and the basename at its last dot, if it has one, into `filename` and `extension`.
pub record IsDivided (s before base name ext : Text) : Type 0 where
  pub folder : (contains s slash ≡ true) × (s ≡ before ++ slash ∷ base) ⊎ (before ≡ []) × (s ≡ base)
  pub no_slash : contains base slash ≡ false
  pub file : (contains base dot ≡ true) × (base ≡ name ++ dot ∷ ext) ⊎ (ext ≡ []) × (base ≡ name)
  pub no_dot : contains ext dot ≡ false

contains-cut : (c : ℕ) (before behind : Text) → contains (before ++ c ∷ behind) c ≡ true
unfolding contains
contains-cut c [] behind = ground arith
contains-cut c (d ∷ before) behind = ground (arith, contains-cut c before behind)

parent_of-base_of :
    (s : Text)
    → ((contains s slash ≡ true) × (s ≡ parent_of s ++ slash ∷ base_of s)
        ⊎ (parent_of s ≡ []) × (s ≡ base_of s))
      × (contains (base_of s) slash ≡ false)
unfolding parent_of base_of
parent_of-base_of s = elim (Option-cases (rsplit_once slash s)) [
  | inl absent ↦ rw (absent, parent_of, base_of) (inr (refl, refl), rsplit_once-none slash s absent)
  | inr (parts, found) ↦
      let cut = rsplit_once-IsCut slash s parts found in
      rw (found, parent_of, base_of)
        (
          inl (
            ap (λ s. contains s slash) cut.whole ∙ contains-cut slash parts.0 parts.1,
            cut.whole,
          ),
          cut.last,
        )
]

filename_of-extension_of :
    (s : Text)
    → ((contains (base_of s) dot ≡ true) × (base_of s ≡ filename_of s ++ dot ∷ extension_of s)
        ⊎ (extension_of s ≡ []) × (base_of s ≡ filename_of s))
      × (contains (extension_of s) dot ≡ false)
unfolding filename_of extension_of contains
filename_of-extension_of s = elim (Option-cases (rsplit_once dot (base_of s))) [
  | inl absent ↦ rw (absent, filename_of, extension_of) (inr (refl, refl), refl)
  | inr (parts, found) ↦
      let cut = rsplit_once-IsCut dot (base_of s) parts found in
      rw (found, filename_of, extension_of)
        (
          inl (ap (λ s. contains s dot) cut.whole ∙ contains-cut dot parts.0 parts.1, cut.whole),
          cut.last,
        )
]

-- `parent` and `basename` divide a path at its last slash, if it has one, and otherwise leave it
-- whole as the basename; `filename` and `extension` divide the basename at its last dot alike.
pub parent-IsDivided :
    (a : MethodArg) (rest : List MethodArg)
    → (before : Text) × (base : Text) × (name : Text) × (ext : Text) × (parent (a ∷ rest)
        ≡ ok before)
      × (basename (a ∷ rest) ≡ ok base)
      × (filename (a ∷ rest) ≡ ok name)
      × (extension (a ∷ rest) ≡ ok ext)
      × IsDivided (as_str a) before base name ext
unfolding parent basename filename extension arg_str
parent-IsDivided a rest =
    let s = as_str a in
    let whole = parent_of-base_of s in
    let file = filename_of-extension_of s in
    (
      parent_of s,
      base_of s,
      filename_of s,
      extension_of s,
      refl,
      refl,
      refl,
      refl,
      record { folder = whole.0; no_slash = whole.1; file = file.0; no_dot = file.1 },
    )
