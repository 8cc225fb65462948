-- ===== src/Examples/Braces.antt =====
-- The brace groups of src/ranges.rs at concrete inputs.
use ion_win.Base.{◌≡◌, refl, true, some, List, [], ◌∷◌, codes, join, length, ◌+◌, All, Text}
use ion_win.Base.Int.{pos}
use ion_win.Ranges.Braces.{
  BraceSegment, literal, group, parse_top_level_segments, split_top_level_commas, comma,
}
use ion_win.Ranges.Braces.Segments.{print, print-parse_top_level_segments}
use ion_win.Ranges.Braces.Depth.{IsSegment, any_group}
use ion_win.Ranges.Braces.Balanced.{parse_top_level_segments-IsSegment}
use ion_win.Ranges.Braces.Commas.{top_commas, join-split_top_level_commas}

abbrev word : Text
word = codes "a${n}{x,{y,z}}.c{}"

abbrev pieces : List BraceSegment
pieces = literal (codes "a${n}") ∷ group (codes "x,{y,z}") ∷ literal (codes ".c{}") ∷ []

-- A variable and an empty pair of braces are no groups.
word-pieces : parse_top_level_segments word ≡ some pieces
unfolding parse_top_level_segments
word-pieces = refl

print-parse_top_level_segments_example : print pieces ≡ word
print-parse_top_level_segments_example = print-parse_top_level_segments word pieces word-pieces

parse_top_level_segments-IsSegment_example : All IsSegment pieces × (any_group pieces ≡ true)
parse_top_level_segments-IsSegment_example =
    parse_top_level_segments-IsSegment word pieces word-pieces

join-split_top_level_commas_example :
    (join (comma ∷ []) (split_top_level_commas (codes "x,{y,z}")) ≡ codes "x,{y,z}")
    × (length (split_top_level_commas (codes "x,{y,z}")) ≡ 1 + top_commas (pos 0) (codes "x,{y,z}"))
join-split_top_level_commas_example = join-split_top_level_commas (codes "x,{y,z}")
