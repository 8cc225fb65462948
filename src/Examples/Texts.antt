-- ===== src/Examples/Texts.antt =====
-- The methods of src/methods.rs at concrete inputs.
use ion_win.Base.{◌≡◌, refl, [], ◌∷◌, codes, Text, ok, contains}
use ion_win.Methods.{
  MethodArg, str, arr, as_str, escape, unescape, parent, basename, filename, extension, join_texts,
  lines,
}
use ion_win.Methods.Escapes.{unescape-escape, lines-join_texts}
use ion_win.Methods.Paths.{IsDivided, parent-IsDivided}

abbrev log : MethodArg
log = str (codes "a\\n\tb/c.tar.gz")

escaped : escape (log ∷ []) ≡ ok (codes "a\\\\n\\tb/c.tar.gz")
unfolding escape
escaped = refl

unescape-escape_example :
    (s : Text) × (escape (log ∷ []) ≡ ok s) × (unescape (str s ∷ []) ≡ ok (as_str log))
unescape-escape_example = unescape-escape log [] []

lines-join_texts_example :
    (s : Text) × (join_texts (arr (codes "a" ∷ [] ∷ []) ∷ str (codes "\n") ∷ []) ≡ ok s)
    × (lines (str s ∷ []) ≡ ok (codes "a" ∷ [] ∷ []))
unfolding contains
lines-join_texts_example = lines-join_texts (codes "a") ([] ∷ []) [] (refl, (refl, tt))

parent-IsDivided_example :
    (before : Text) × (base : Text) × (name : Text) × (ext : Text) × (parent (log ∷ []) ≡ ok before)
    × (basename (log ∷ []) ≡ ok base)
    × (filename (log ∷ []) ≡ ok name)
    × (extension (log ∷ []) ≡ ok ext)
    × IsDivided (as_str log) before base name ext
parent-IsDivided_example = parent-IsDivided log []
