-- ===== src/Examples/Pipelines.antt =====
-- The pipelines of src/pipeline.rs at concrete inputs.
use ion_win.Base.{◌≡◌, refl, true, [], ◌∷◌, codes, text_eq, suc, length}
use ion_win.Pipeline.{unquoted, double, combined, out, Stage, mark_of, parse, parse_from}
use ion_win.Pipeline.Stages.{parse-stages}
use ion_win.Pipeline.RoundTrip.{print_stages, background}

abbrev grep : Stage
grep = record {
  tokens =
      record { text = codes "grep"; quoting = unquoted }
      ∷ record { text = codes "a b"; quoting = double }
      ∷ [];
  redirects = record { stream = out; path = codes "log"; append = true } ∷ [];
}

abbrev sort : Stage
sort = record { tokens = record { text = codes "sort"; quoting = unquoted } ∷ []; redirects = [] }

parse-stages_example :
    length (parse (print_stages grep ((combined, sort) ∷ []) background)).stages
    ≡ suc (length (parse (print_stages grep ((combined, sort) ∷ []) background)).pipes)
parse-stages_example = parse-stages (print_stages grep ((combined, sort) ∷ []) background)

-- A quoted bar is a pipe as well.
quoted_bar : length (parse (record { text = codes "|"; quoting = double } ∷ [])).stages ≡ 2
unfolding parse parse_from mark_of text_eq
quoted_bar = refl
