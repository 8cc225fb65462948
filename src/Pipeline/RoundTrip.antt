-- ===== src/Pipeline/RoundTrip.antt =====
-- Writing a pipeline as tokens, and reading it back with `parse` of src/pipeline.rs.
use ion_win.Base.{◌≡◌, Bool, true, false, List, [], ◌∷◌, ◌++◌, map, Text, codes, All}
use ion_win.Pipeline.{
  Token, unquoted, PipeKind, stdout, stderr, combined, Stream, out, error, both, Redirect, Stage,
  Pipeline, redirect, word, mark_of,
}

-- The line that a pipeline is written as: the words of each stage, its redirects, and the pipes.
abbrev plain : Text → Token
plain text = record { text = text; quoting = unquoted }

abbrev pub pipe_text : PipeKind → Text
pipe_text stdout = codes "|"
pipe_text stderr = codes "^|"
pipe_text combined = codes "&|"

abbrev pub redirect_text : Stream → Bool → Text
redirect_text out false = codes ">"
redirect_text out true = codes ">>"
redirect_text error _ = codes "^>"
redirect_text both _ = codes "&>"

abbrev pub print_redirects : List Redirect → List Token
print_redirects [] = []
print_redirects (r ∷ rs) =
    plain (redirect_text r.stream r.append) ∷ plain r.path ∷ print_redirects rs

-- What may stand at the end of the line.
pub data End : Type 0 where
  foreground background disowned : End

abbrev pub print_end : End → List Token
print_end foreground = []
print_end background = plain (codes "&") ∷ []
print_end disowned = plain (codes "&!") ∷ []

abbrev pub print_stages : Stage → List (PipeKind × Stage) → End → List Token
print_stages s [] end = s.tokens ++ (print_redirects s.redirects ++ print_end end)
print_stages s ((kind, next) ∷ rest) end =
    s.tokens ++ (print_redirects s.redirects ++ plain (pipe_text kind) ∷ print_stages next rest end)

abbrev pub closed : End → Pipeline → Pipeline
closed foreground p = p
closed background p = record p { background = true }
closed disowned p = record p { disown = true }

-- A pipeline as its stages with the pipes between them.
abbrev pub pipeline_of : Stage → List (PipeKind × Stage) → End → Pipeline
pipeline_of s rest end = closed end (record {
  stages = s ∷ map (λ r. r.1) rest;
  pipes = map (λ r. r.0) rest;
  background = false;
  disown = false;
})

-- Words that are no operators, and only standard output is appended to.
abbrev pub IsWord : Token → Type 0
IsWord t = mark_of t.text ≡ word

abbrev pub IsRedirect : Redirect → Type 0
IsRedirect r = mark_of (redirect_text r.stream r.append) ≡ redirect r.stream r.append

pub record IsStage (s : Stage) : Type 0 where
  pub words : All IsWord s.tokens
  pub redirects : All IsRedirect s.redirects

-- Every stage of a chain is one that can be written.
abbrev pub AreStages : Stage → List (PipeKind × Stage) → Type 0
AreStages s rest = IsStage s × All (λ r. IsStage r.1) rest
