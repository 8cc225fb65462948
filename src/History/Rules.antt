-- ===== src/History/Rules.antt =====
-- The rules of src/history.rs for what is left out of the history (`apply_ignore_rules`), against
-- an independent description. Regular expressions are compiled by a parameter.
use ion_win.Base.{
  ◌≡◌, refl, sym, ◌∙◌, ap, subst, inl, inr, Bool, true, false, not, ◌&&◌, ◌||◌, Option, none, some,
  List, [], ◌∷◌, ◌++◌, Text, if◌then◌else◌, text_eq, text_eq_sound, retain, codes, Bool-cases,
}
use mathlib.Core.List.{append_assoc, append-nil}
use ion_win.Base.Chars.{is_whitespace}
use ion_win.History.{strip_prefix}

-- `rules.iter().any(|r| r == rule)`
unfoldable pub has_rule : Text → List Text → Bool
unfolding text_eq
has_rule rule [] = false
has_rule rule (r ∷ rules) = text_eq r rule || has_rule rule rules

abbrev pub opens_space : Text → Bool
opens_space [] = false
opens_space (c ∷ s) = is_whitespace c

abbrev pub default_ignore_rules : List Text
default_ignore_rules = codes "no_such_command" ∷ codes "whitespace" ∷ codes "duplicates" ∷ []

-- The rules of the variable, or the default rules if it is not set.
abbrev pub rules_of : Option (List Text) → List Text
rules_of none = default_ignore_rules
rules_of (some rules) = rules

unfoldable pub ignores_no_such_command : Option (List Text) → Bool
unfolding has_rule
ignores_no_such_command set = has_rule (codes "no_such_command") (rules_of set)

module _ (compile : Text → Option (Text → Bool)) where
  abbrev pub add_regex : Option (Text → Bool) → List (Text → Bool) → List (Text → Bool)
  add_regex none rest = rest
  add_regex (some re) rest = re ∷ rest

  abbrev pub regex_of : Option Text → Option (Text → Bool)
  regex_of none = none
  regex_of (some pattern) = compile pattern

  unfoldable pub regexes : List Text → List (Text → Bool)
  unfolding strip_prefix
  regexes [] = []
  regexes (r ∷ rules) = add_regex (regex_of (strip_prefix (codes "regex:") r)) (regexes rules)

  unfoldable pub any_match : List (Text → Bool) → Text → Bool
  any_match [] entry = false
  any_match (re ∷ rest) entry = re entry || any_match rest entry

  -- The loop over the entries; `out` is what has been kept.
  unfoldable pub keep : Bool → Bool → List (Text → Bool) → List Text → List Text → List Text
  unfolding any_match is_whitespace text_eq
  keep skip_whitespace dedup res out [] = out
  keep skip_whitespace dedup res out (entry ∷ entries) =
      elim ((skip_whitespace && opens_space entry) || any_match res entry) [
        | true ↦ keep skip_whitespace dedup res out entries
        | false ↦
            keep skip_whitespace dedup res
              ((if dedup then retain (λ kept. not (text_eq kept entry)) out else out)
                ++ (entry ∷ []))
              entries
      ]

  unfoldable pub apply_ignore_rules : List Text → List Text → List Text
  unfolding keep has_rule regexes
  apply_ignore_rules entries rules =
      if has_rule (codes "all") rules
      then []
      else keep (has_rule (codes "whitespace") rules) (has_rule (codes "duplicates") rules)
          (regexes rules) [] entries

-- Whether an entry stands in a list.
unfoldable pub member : Text → List Text → Bool
unfolding text_eq
member x [] = false
member x (y ∷ ys) = text_eq y x || member x ys

-- Of each entry the last occurrence.
unfoldable pub latest : List Text → List Text
unfolding member
latest [] = []
latest (x ∷ xs) = if member x xs then latest xs else x ∷ latest xs

-- The entries of a list that do not stand in another one.
unfoldable pub without : List Text → List Text → List Text
unfolding member
without ys [] = []
without ys (x ∷ xs) = if member x ys then without ys xs else x ∷ without ys xs

without-append : (ys a b : List Text) → without ys (a ++ b) ≡ without ys a ++ without ys b
unfolding without
without-append ys [] b = refl
without-append ys (x ∷ a) b = elim (Bool-cases (member x ys)) [
  | inl e ↦ rw (without, e) (without-append ys a b)
  | inr e ↦ rw (without, e) (ap (x ∷◌) (without-append ys a b))
]

without_nil : (xs : List Text) → without [] xs ≡ xs
unfolding without member
without_nil [] = refl
without_nil (x ∷ xs) = ap (x ∷◌) (without_nil xs)

text_eq_sym : (a b : Text) → text_eq a b ≡ text_eq b a
text_eq_sym a b = elim (Bool-cases (text_eq a b)) [
  | inl e ↦ subst (λ c. text_eq a c ≡ text_eq c a) (text_eq_sound a b e) refl
  | inr e ↦ elim (Bool-cases (text_eq b a)) [
    | inl f ↦ subst (λ c. text_eq c b ≡ text_eq b c) (text_eq_sound b a f) refl
    | inr f ↦ e ∙ sym f
  ]
]

-- To take an entry out and then others is to take all of them out.
without-retain :
    (entry : Text) (ys xs : List Text)
    → without ys (retain (λ kept. not (text_eq kept entry)) xs) ≡ without (entry ∷ ys) xs
unfolding without member
without-retain entry ys [] = refl
without-retain entry ys (x ∷ xs) = elim (Bool-cases (text_eq x entry)) [
  | inl e ↦
      let f : text_eq entry x ≡ true = text_eq_sym entry x ∙ e in
      rw (e, f) (without-retain entry ys xs)
  | inr e ↦
      let f : text_eq entry x ≡ false = text_eq_sym entry x ∙ e in
      elim (Bool-cases (member x ys)) [
        | inl g ↦ rw (without, e, f, g) (without-retain entry ys xs)
        | inr g ↦ rw (without, e, f, g) (ap (x ∷◌) (without-retain entry ys xs))
      ]
]

-- One more entry, in front of those that come later.
latest_step :
    (entry : Text) (out later : List Text)
    → without later (retain (λ kept. not (text_eq kept entry)) out ++ (entry ∷ [])) ++ latest later
      ≡ without (entry ∷ later) out ++ latest (entry ∷ later)
unfolding without latest
latest_step entry out later =
    ap (λ t. t ++ latest later)
      (without-append later (retain (λ kept. not (text_eq kept entry)) out) (entry ∷ []))
    ∙ ap (λ t. (t ++ without later (entry ∷ [])) ++ latest later) (without-retain entry later out)
    ∙ append_assoc (without (entry ∷ later) out) (without later (entry ∷ [])) (latest later)
    ∙ ap (λ t. without (entry ∷ later) out ++ t) (last entry later)
  where
    last :
        (entry : Text) (later : List Text)
        → without later (entry ∷ []) ++ latest later ≡ latest (entry ∷ later)
    last entry later = elim (Bool-cases (member entry later)) [
      | inl e ↦ rw e refl
      | inr e ↦ rw e refl
    ]

module _ (compile : Text → Option (Text → Bool)) where
  pub passes : Bool → List (Text → Bool) → Text → Bool
  passes skip_whitespace res entry =
      not ((skip_whitespace && opens_space entry) || any_match compile res entry)

  -- Without the rule on duplicates the entries that pass are appended.
  keep-all :
      (skip : Bool) (res : List (Text → Bool)) (entries out : List Text)
      → keep compile skip false res out entries ≡ out ++ retain (passes skip res) entries
  unfolding keep passes
  keep-all skip res [] out = sym (append-nil out)
  keep-all skip res (entry ∷ entries) out =
      elim (Bool-cases ((skip && opens_space entry) || any_match compile res entry)) [
        | inl e ↦ rw (keep, e) (keep-all skip res entries out)
        | inr e ↦
            rw (keep, e)
              (keep-all skip res entries (out ++ (entry ∷ [])) ∙ append_assoc out (entry ∷ []) _)
      ]

  -- With it, what was kept before stays if it does not come again.
  keep-latest :
      (skip : Bool) (res : List (Text → Bool)) (entries out : List Text)
      → keep compile skip true res out entries
        ≡ without (retain (passes skip res) entries) out
          ++ latest (retain (passes skip res) entries)
  unfolding keep passes latest without
  keep-latest skip res [] out = sym (append-nil (without [] out) ∙ without_nil out)
  keep-latest skip res (entry ∷ entries) out =
      elim (Bool-cases ((skip && opens_space entry) || any_match compile res entry)) [
        | inl e ↦ rw (keep, e) (keep-latest skip res entries out)
        | inr e ↦
            rw (keep, e)
              (keep-latest skip res entries _
                ∙ latest_step entry out (retain (passes skip res) entries))
      ]

-- Whatever regular expressions are: the rule `all` leaves nothing. Without it, what is left is the
-- entries that begin with white space under no rule against it and that match no expression of
-- the rules, in their order; under the rule on duplicates, of each of them the last occurrence.
pub apply_ignore_rules_lem :
    (compile : Text → Option (Text → Bool)) (entries rules : List Text)
    → apply_ignore_rules compile entries rules ≡ (
        if has_rule (codes "all") rules
        then []
        else if has_rule (codes "duplicates") rules
        then latest (
            retain
              (passes compile (has_rule (codes "whitespace") rules) (regexes compile rules))
              entries)
        else retain
            (passes compile (has_rule (codes "whitespace") rules) (regexes compile rules))
            entries)
unfolding apply_ignore_rules without
apply_ignore_rules_lem compile entries rules =
    let skip : Bool = has_rule (codes "whitespace") rules in
    let res : List (Text → Bool) = regexes compile rules in
    elim (Bool-cases (has_rule (codes "all") rules)) [
      | inl e ↦ rw e refl
      | inr e ↦ elim (Bool-cases (has_rule (codes "duplicates") rules)) [
        | inl f ↦ rw (e, f) (keep-latest compile skip res entries [])
        | inr f ↦ rw (e, f) (keep-all compile skip res entries [])
      ]
    ]
