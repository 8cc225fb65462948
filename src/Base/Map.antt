-- ===== src/Base/Map.antt =====
-- A map keyed by numbers, as an association list: the hash maps keyed by ids. The order of the
-- list is the order in which the map is iterated; a key that is absent on insertion goes last.
use Prim.Native.Nat.{ℕ}
use mathlib.Core.Path.{◌≡◌, refl}
use mathlib.Core.Logic.{◌≢◌, ◌⊎◌, inl, inr}
use mathlib.Core.Bool.{Bool, true, false}
use mathlib.Core.Option.{Option, none, some}
use mathlib.Core.List.{List, [], ◌∷◌, map}
use native.Mathlib.Omega.{arith}
use ion_win.Base.Tests.{◌==◌, if◌then◌else◌, is_some, Bool-cases, Option-cases, ==_iff}

module _ {ℓ} {V : Type ℓ} where
  unfoldable pub lookup : ℕ → List (ℕ × V) → Option V
  lookup key [] = none
  lookup key ((id, found) ∷ rest) = if id == key then some found else lookup key rest

  unfoldable pub remove : ℕ → List (ℕ × V) → List (ℕ × V)
  remove key [] = []
  remove key ((id, old) ∷ rest) = if id == key then remove key rest else (id, old) ∷ remove key rest

  unfoldable pub insert : ℕ → V → List (ℕ × V) → List (ℕ × V)
  insert key new [] = (key, new) ∷ []
  insert key new ((id, old) ∷ rest) =
      if id == key then (key, new) ∷ rest else (id, old) ∷ insert key new rest

  -- What is written through `get_mut`: nothing if the key is absent.
  unfoldable pub modify : ℕ → (V → V) → List (ℕ × V) → List (ℕ × V)
  modify k f [] = []
  modify k f ((j, w) ∷ m) = if j == k then (j, f w) ∷ m else (j, w) ∷ modify k f m

  abbrev pub contains_key : ℕ → List (ℕ × V) → Bool
  contains_key k m = is_some (lookup k m)

  abbrev pub keys : List (ℕ × V) → List ℕ
  keys = map (λ e. e.0)

  abbrev pub values : List (ℕ × V) → List V
  values = map (λ e. e.1)

module _ {ℓ} {V : Type ℓ} where
  pub lookup-insert :
      (id key : ℕ) (new : V) (entries : List (ℕ × V))
      → lookup key (insert id new entries) ≡ (if id == key then some new else lookup key entries)
  unfolding lookup insert
  lookup-insert id key new [] = refl
  lookup-insert id key new ((i, w) ∷ rest) = ground (arith, lookup-insert id key new rest)

  pub lookup-remove :
      (k j : ℕ) (m : List (ℕ × V)) → lookup j (remove k m) ≡ (if k == j then none else lookup j m)
  unfolding lookup remove
  lookup-remove k j [] = ground arith
  lookup-remove k j ((i, w) ∷ m) = ground (arith, lookup-remove k j m)

  pub lookup-modify :
      (k j : ℕ) (f : V → V) (m : List (ℕ × V))
      → lookup j (modify k f m)
        ≡ (if k == j then elim (lookup j m) [ none ↦ none | some v ↦ some (f v) ] else lookup j m)
  unfolding lookup modify
  lookup-modify k j f [] = ground arith
  lookup-modify k j f ((i, w) ∷ m) = ground (arith, lookup-modify k j f m)

module _ {ℓ} {V : Type ℓ} where
  -- What a lookup that succeeds says of the map before the write.
  pub lookup-remove-some :
      (k j : ℕ) {v : V} (m : List (ℕ × V))
      → lookup j (remove k m) ≡ some v
      → (k ≢ j) × (lookup j m ≡ some v)
  lookup-remove-some k j m h = let e = lookup-remove k j m in (λ same. ground arith, ground arith)

  pub lookup-modify-some :
      (k j : ℕ) (f : V → V) {v : V} (m : List (ℕ × V))
      → lookup j (modify k f m) ≡ some v
      → ((w : V) × (k ≡ j) × (lookup j m ≡ some w) × (v ≡ f w)) ⊎ ((k ≢ j) × (lookup j m ≡ some v))
  lookup-modify-some k j f {v} m h = by_key (Bool-cases (k == j)) (Option-cases (lookup j m))
    where
      by_key :
          ((k == j) ≡ true) ⊎ ((k == j) ≡ false)
          → (lookup j m ≡ none) ⊎ ((w : V) × (lookup j m ≡ some w))
          → ((w : V) × (k ≡ j) × (lookup j m ≡ some w) × (v ≡ f w))
            ⊎ ((k ≢ j) × (lookup j m ≡ some v))
      by_key (inl same) (inl e) = absurd (ground (arith, lookup-modify k j f m))
      by_key (inl same) (inr (w, e)) =
          inl (w, (==_iff k j).0 same, e, ground (arith, lookup-modify k j f m))
      by_key (inr other) d = inr (λ e. ground arith, ground (arith, lookup-modify k j f m))
