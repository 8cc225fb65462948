-- ===== src/Pipeline/Stages.antt =====
-- The number of stages that `parse` of src/pipeline.rs finds.
use ion_win.Base.{suc, ◌≡◌, refl, sym, ◌∙◌, ap, List, [], ◌∷◌, ◌++◌, length, length-append, arith}
use ion_win.Pipeline.{
  Token, Stage, Pipeline, empty_stage, empty_pipeline, Mark, pipe, redirect, background_mark,
  disown_mark, word, mark_of, push_word, push_redirect, push_pipe, parse_from, parse,
}

length-push : {A : Type 0} (xs : List A) (x : A) → length (xs ++ x ∷ []) ≡ suc (length xs)
length-push xs x = omega (arith, length-append xs (x ∷ []))

-- One stage more than pipes.
abbrev Balanced : Pipeline → Type 0
Balanced p = length p.stages ≡ suc (length p.pipes)

parse_from-stages :
    (ts : List Token) (p : Pipeline) (current : Stage)
    → length p.stages ≡ length p.pipes
    → Balanced (parse_from ts p current)
unfolding parse_from
parse_from-stages [] p current h = length-push p.stages current ∙ ap suc h
parse_from-stages (t ∷ []) p current h = go (mark_of t.text) refl
  where
    go : (m : Mark) → mark_of t.text ≡ m → Balanced (parse_from (t ∷ []) p current)
    go (pipe kind) e =
        rw (e, parse_from)
          (omega (
            arith,
            h,
            length-push (p.stages ++ current ∷ []) empty_stage,
            length-push p.stages current,
            length-push p.pipes kind,
          ))
    go (redirect stream append) e = rw (e, parse_from) (length-push p.stages current ∙ ap suc h)
    go background_mark e = rw (e, parse_from) (length-push p.stages current ∙ ap suc h)
    go disown_mark e = rw (e, parse_from) (length-push p.stages current ∙ ap suc h)
    go word e = rw (e, parse_from) (length-push p.stages (push_word t current) ∙ ap suc h)
parse_from-stages (t ∷ u ∷ rest) p current h =
    go (parse_from-stages (u ∷ rest)) (parse_from-stages rest) (mark_of t.text) refl
  where
    go :
        ((p : Pipeline) (c : Stage)
          → length p.stages ≡ length p.pipes
          → Balanced (parse_from (u ∷ rest) p c))
        → ((p : Pipeline) (c : Stage)
            → length p.stages ≡ length p.pipes
            → Balanced (parse_from rest p c))
        → (m : Mark) → mark_of t.text ≡ m
        → Balanced (parse_from (t ∷ u ∷ rest) p current)
    go next after (pipe kind) e =
        rw (e, parse_from)
          (next (push_pipe kind current p) empty_stage
            (length-push p.stages current ∙ ap suc h ∙ sym (length-push p.pipes kind)))
    go next after (redirect stream append) e =
        rw (e, parse_from)
          (after p
            (push_redirect (record { stream = stream; path = u.text; append = append }) current) h)
    go next after background_mark e = rw (e, parse_from) (next p (push_word t current) h)
    go next after disown_mark e = rw (e, parse_from) (next p (push_word t current) h)
    go next after word e = rw (e, parse_from) (next p (push_word t current) h)

-- However the tokens run, the pipeline has one stage more than it has pipes.
pub parse-stages : (ts : List Token) → length (parse ts).stages ≡ suc (length (parse ts).pipes)
unfolding parse
parse-stages ts = parse_from-stages ts empty_pipeline empty_stage refl
