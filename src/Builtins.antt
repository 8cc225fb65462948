-- ===== src/Builtins.antt =====
-- The tests of src/builtins.rs that read their arguments: `test`, `bool`, `contains`,
-- `starts-with`, `ends-with` and `eq`. Floating-point numbers and the file system are parameters.
use ion_win.Base.{
  Bool, true, false, not, ◌&&◌, ◌||◌, Option, none, some, List, [], ◌∷◌, Text, text_eq,
  if◌then◌else◌, codes, is_empty, ◌==◌, reverse,
}

-- `str::parse::<f64>` and the comparisons of floats, and what `Path` asks of the file system.
pub record Host : Type 1 where
  pub Float : Type 0
  pub parse : Text → Option Float
  pub eq : Float → Float → Bool
  pub lt : Float → Float → Bool
  pub le : Float → Float → Bool
  pub exists : Text → Bool
  pub is_file : Text → Bool
  pub is_dir : Text → Bool

module _ (host : Host) where
  abbrev Number : Type 0
  Number = host.Float

  unfoldable pub compare_floats : Text → Number → Number → Bool
  compare_floats op x y =
      if text_eq op (codes "-eq")
      then host.eq x y
      else if text_eq op (codes "-ne")
      then not (host.eq x y)
      else if text_eq op (codes "-lt")
      then host.lt x y
      else if text_eq op (codes "-le")
      then host.le x y
      else if text_eq op (codes "-gt")
      then host.lt y x
      else host.le y x

  abbrev is_numeric : Text → Bool
  is_numeric op =
      (text_eq op (codes "-eq") || (text_eq op (codes "-ne") || text_eq op (codes "-lt")))
      || (text_eq op (codes "-le") || (text_eq op (codes "-gt") || text_eq op (codes "-ge")))

  abbrev both : Text → Option Number → Option Number → Bool
  both op none y = false
  both op (some x) none = false
  both op (some x) (some y) = compare_floats op x y

  unfoldable pub eval_binary : Text → Text → Text → Bool
  unfolding compare_floats
  eval_binary a op b =
      if text_eq op (codes "=") || text_eq op (codes "==")
      then text_eq a b
      else if text_eq op (codes "!=")
      then not (text_eq a b)
      else if is_numeric op
      then both op (host.parse a) (host.parse b)
      else false

  unfoldable pub eval_unary : Text → Text → Bool
  eval_unary flag s =
      if text_eq flag (codes "-n")
      then not (is_empty s)
      else if text_eq flag (codes "-z")
      then is_empty s
      else if text_eq flag (codes "-e")
      then host.exists s
      else if text_eq flag (codes "-f")
      then host.is_file s
      else if text_eq flag (codes "-d")
      then host.is_dir s
      else false

  unfoldable pub eval_test : List Text → Bool
  unfolding eval_binary eval_unary
  eval_test [] = false
  eval_test (s ∷ []) = not (is_empty s)
  eval_test (flag ∷ s ∷ []) = eval_unary flag s
  eval_test (a ∷ op ∷ b ∷ []) = eval_binary a op b
  eval_test (_ ∷ _ ∷ _ ∷ _ ∷ _) = false

unfoldable pub eval_bool : List Text → Bool
eval_bool (value ∷ []) = text_eq value (codes "1") || text_eq value (codes "true")
eval_bool _ = false

unfoldable pub starts_with : Text → Text → Bool
starts_with s [] = true
starts_with [] (_ ∷ _) = false
starts_with (a ∷ s) (b ∷ v) = a == b && starts_with s v

-- `str::contains` of a text: it begins at some place.
unfoldable pub contains_text : Text → Text → Bool
unfolding starts_with
contains_text [] v = starts_with [] v
contains_text (a ∷ s) v = starts_with (a ∷ s) v || contains_text s v

unfoldable pub ends_with : Text → Text → Bool
unfolding starts_with
ends_with s v = starts_with (reverse s) (reverse v)

unfoldable pub any_of : (Text → Bool) → List Text → Bool
any_of p [] = false
any_of p (v ∷ rest) = p v || any_of p rest

unfoldable pub eval_contains : List Text → Bool
unfolding any_of contains_text
eval_contains (s ∷ v ∷ rest) = any_of (contains_text s) (v ∷ rest)
eval_contains _ = false

unfoldable pub eval_starts_with : List Text → Bool
unfolding any_of starts_with
eval_starts_with (s ∷ v ∷ rest) = any_of (starts_with s) (v ∷ rest)
eval_starts_with _ = false

unfoldable pub eval_ends_with : List Text → Bool
unfolding any_of ends_with
eval_ends_with (s ∷ v ∷ rest) = any_of (ends_with s) (v ∷ rest)
eval_ends_with _ = false

unfoldable pub eval_eq : List Text → Bool
eval_eq (a ∷ b ∷ []) = text_eq a b
eval_eq (flag ∷ a ∷ b ∷ []) = text_eq flag (codes "not") && not (text_eq a b)
eval_eq _ = false
