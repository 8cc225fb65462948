-- ===== src/Methods.antt =====
-- String and array methods of src/methods.rs: the arguments, the parts of a path, `escape` and
-- `unescape`, `join` and `lines`, and the fallbacks `or` and `subst`.
pub mod Escapes
pub mod Paths
use ion_win.Base.{
  ℕ, zero, suc, ◌+◌, Bool, true, false, not, ◌&&◌, Option, none, some, List, [], ◌∷◌, ◌++◌, map,
  Text, join, reverse, Result, ok, err, ◌>>=◌, if◌then◌else◌, ◌==◌, is_empty, length, ltb,
  get_elem?, codes,
}
use ion_win.Base.Decimal.{to_string}

pub data MethodArg : Type 0 where
  str : Text → MethodArg
  arr : List Text → MethodArg

unfoldable pub as_str : MethodArg → Text
as_str (str s) = s
as_str (arr v) = join (codes " ") v

unfoldable pub as_array : MethodArg → List Text
as_array (str s) = s ∷ []
as_array (arr v) = v

abbrev pub Outcome : Type 0 → Type 0
Outcome A = Result Text A

abbrev pub too_few : {A : Type 0} → ℕ → Outcome A
too_few i = err (codes "expected at least " ++ (to_string (i + 1) ++ codes " argument(s)"))

unfoldable pub arg_str : List MethodArg → ℕ → Outcome Text
unfolding as_str
arg_str args i = elim (get_elem? args i) [ none ↦ too_few i | some a ↦ ok (as_str a) ]

unfoldable pub arg_arr : List MethodArg → ℕ → Outcome (List Text)
unfolding as_array
arg_arr args i = elim (get_elem? args i) [ none ↦ too_few i | some a ↦ ok (as_array a) ]

abbrev pub slash : ℕ
slash = 47

abbrev pub dot : ℕ
dot = 46

-- `rsplit_once`: the texts before and behind the last place where a character stands.
unfoldable pub rsplit_once : ℕ → Text → Option (Text × Text)
rsplit_once c [] = none
rsplit_once c (d ∷ text) = elim (rsplit_once c text) [
  | some parts ↦ some (d ∷ parts.0, parts.1)
  | none ↦ if d == c then some ([], text) else none
]

-- `rsplit('/').next()`
unfoldable pub base_of : Text → Text
unfolding rsplit_once
base_of s = elim (rsplit_once slash s) [ none ↦ s | some parts ↦ parts.1 ]

unfoldable pub extension_of : Text → Text
unfolding base_of
extension_of s = elim (rsplit_once dot (base_of s)) [ none ↦ [] | some parts ↦ parts.1 ]

unfoldable pub filename_of : Text → Text
unfolding base_of
filename_of s = elim (rsplit_once dot (base_of s)) [ none ↦ base_of s | some parts ↦ parts.0 ]

unfoldable pub parent_of : Text → Text
unfolding rsplit_once
parent_of s = elim (rsplit_once slash s) [ none ↦ [] | some parts ↦ parts.0 ]

-- The methods of one text: `f` of the first argument.
abbrev on_text : (Text → Text) → List MethodArg → Outcome Text
on_text f args = do s ← arg_str args 0; ok (f s)

unfoldable pub basename : List MethodArg → Outcome Text
unfolding arg_str base_of
basename args = on_text base_of args

unfoldable pub extension : List MethodArg → Outcome Text
unfolding arg_str extension_of
extension args = on_text extension_of args

unfoldable pub filename : List MethodArg → Outcome Text
unfolding arg_str filename_of
filename args = on_text filename_of args

unfoldable pub parent : List MethodArg → Outcome Text
unfolding arg_str parent_of
parent args = on_text parent_of args

abbrev pub backslash : ℕ
backslash = 92

unfoldable pub escape_char : ℕ → Text
escape_char c =
    if c == backslash
    then backslash ∷ backslash ∷ []
    else if c == 10
    then backslash ∷ 110 ∷ []
    else if c == 9
    then backslash ∷ 116 ∷ []
    else if c == 13
    then backslash ∷ 114 ∷ []
    else c ∷ []

unfoldable pub escape_text : Text → Text
unfolding escape_char
escape_text [] = []
escape_text (c ∷ s) = escape_char c ++ escape_text s

-- What stands for a backslash and the character behind it.
unfoldable pub unescape_char : ℕ → Text
unescape_char c =
    if c == 110
    then 10 ∷ []
    else if c == 116
    then 9 ∷ []
    else if c == 114
    then 13 ∷ []
    else if c == backslash
    then backslash ∷ []
    else backslash ∷ c ∷ []

unfoldable pub unescape_text : Text → Text
unfolding unescape_char
unescape_text [] = []
unescape_text (c ∷ []) = c ∷ []
unescape_text (c ∷ d ∷ s) = elim (c == backslash) [
  | true ↦ unescape_char d ++ unescape_text s
  | false ↦ c ∷ unescape_text (d ∷ s)
]

unfoldable pub escape : List MethodArg → Outcome Text
unfolding arg_str escape_text
escape args = on_text escape_text args

unfoldable pub unescape : List MethodArg → Outcome Text
unfolding arg_str unescape_text
unescape args = on_text unescape_text args

-- `join` of the array methods' texts, with a blank unless a separator is given.
unfoldable pub join_texts : List MethodArg → Outcome Text
unfolding arg_str arg_arr
join_texts args = do
  items ← arg_arr args 0
  sep ← (if ltb 1 (length args) then arg_str args 1 else ok (codes " "))
  ok (join sep items)

-- `split('\n')`: the line in front of each newline, and the last one.
unfoldable pub split_lines : Text → Text → List Text
split_lines line [] = line ∷ []
split_lines line (c ∷ s) = elim (c == 10) [
  | true ↦ line ∷ split_lines [] s
  | false ↦ split_lines (line ++ c ∷ []) s
]

unfoldable pub lines : List MethodArg → Outcome (List Text)
unfolding arg_str split_lines
lines args = do s ← arg_str args 0; ok (split_lines [] s)

unfoldable pub or : List MethodArg → Outcome Text
unfolding arg_str
or args = do
  value ← arg_str args 0
  fallback ← arg_str args 1
  ok (if is_empty value then fallback else value)

unfoldable pub reverse_arr : List MethodArg → Outcome (List Text)
unfolding arg_arr
reverse_arr args = do items ← arg_arr args 0; ok (reverse items)

unfoldable pub subst_arrays : List MethodArg → Outcome (List Text)
unfolding arg_arr
subst_arrays args =
    if not (length args == 2)
    then err (codes "subst: requires 2 arguments")
    else do first ← arg_arr args 0; (if is_empty first then arg_arr args 1 else ok first)
