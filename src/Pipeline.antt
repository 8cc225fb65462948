-- ===== src/Pipeline.antt =====
-- Pipelines of src/pipeline.rs: `parse` cuts a line of tokens into stages with redirects, the
-- pipes between them, and a background or disown mark at the end.
pub mod Stages
pub mod RoundTrip
use ion_win.Base.{
  ℕ, ◌+◌, Bool, true, false, not, ◌&&◌, ◌||◌, Option, none, some, List, [], ◌∷◌, ◌++◌, Text,
  text_eq, if◌then◌else◌, codes, is_empty, length, leb,
}

pub data Quoting : Type 0 where
  unquoted single double : Quoting

pub record Token : Type 0 where
  pub text : Text
  pub quoting : Quoting

pub data PipeKind : Type 0 where
  stdout stderr combined : PipeKind

pub data Stream : Type 0 where
  out error both : Stream

pub record Redirect : Type 0 where
  pub stream : Stream
  pub path : Text
  pub append : Bool

pub record Stage : Type 0 where
  pub tokens : List Token
  pub redirects : List Redirect

pub record Pipeline : Type 0 where
  pub stages : List Stage
  pub pipes : List PipeKind
  pub background : Bool
  pub disown : Bool

abbrev pub empty_stage : Stage
empty_stage = record { tokens = []; redirects = [] }

abbrev pub empty_pipeline : Pipeline
empty_pipeline = record { stages = []; pipes = []; background = false; disown = false }

-- What the text of a token says; its quoting is not asked.
pub data Mark : Type 0 where
  pipe : PipeKind → Mark
  redirect : Stream → (append : Bool) → Mark
  background_mark disown_mark word : Mark

unfoldable pub mark_of : Text → Mark
mark_of text =
    if text_eq text (codes "|")
    then pipe stdout
    else if text_eq text (codes "^|")
    then pipe stderr
    else if text_eq text (codes "&|")
    then pipe combined
    else if text_eq text (codes ">")
    then redirect out false
    else if text_eq text (codes ">>")
    then redirect out true
    else if text_eq text (codes "^>")
    then redirect error false
    else if text_eq text (codes "&>")
    then redirect both false
    else if text_eq text (codes "&")
    then background_mark
    else if text_eq text (codes "&!")
    then disown_mark
    else word

abbrev pub push_word : Token → Stage → Stage
push_word t current = record current { tokens = current.tokens ++ t ∷ [] }

abbrev pub push_redirect : Redirect → Stage → Stage
push_redirect r current = record current { redirects = current.redirects ++ r ∷ [] }

abbrev pub push_stage : Stage → Pipeline → Pipeline
push_stage current p = record p { stages = p.stages ++ current ∷ [] }

abbrev pub push_pipe : PipeKind → Stage → Pipeline → Pipeline
push_pipe kind current p = record (push_stage current p) { pipes = p.pipes ++ kind ∷ [] }

-- The loop of `parse`. A redirect takes the token behind it, whatever that is, and `&` and `&!`
-- are words unless they are the last token.
unfoldable pub parse_from : List Token → Pipeline → Stage → Pipeline
unfolding mark_of
parse_from [] p current = push_stage current p
parse_from (t ∷ []) p current = elim (mark_of t.text) [
  | pipe kind ↦ push_stage empty_stage (push_pipe kind current p)
  | redirect stream append ↦ push_stage current p
  | background_mark ↦ push_stage current (record p { background = true })
  | disown_mark ↦ push_stage current (record p { disown = true })
  | word ↦ push_stage (push_word t current) p
]
parse_from (t ∷ u ∷ rest) p current = elim (mark_of t.text) [
  | pipe kind ↦ parse_from (u ∷ rest) (push_pipe kind current p) empty_stage
  | redirect stream append ↦
      parse_from rest p
        (push_redirect (record { stream = stream; path = u.text; append = append }) current)
  | background_mark ↦ parse_from (u ∷ rest) p (push_word t current)
  | disown_mark ↦ parse_from (u ∷ rest) p (push_word t current)
  | word ↦ parse_from (u ∷ rest) p (push_word t current)
]

unfoldable pub parse : List Token → Pipeline
unfolding parse_from
parse tokens = parse_from tokens empty_pipeline empty_stage

abbrev no_redirects : List Stage → Bool
no_redirects [] = true
no_redirects (s ∷ _) = is_empty s.redirects

unfoldable pub is_trivial : Pipeline → Bool
is_trivial p =
    leb (length p.stages) 1
    && (is_empty p.pipes && (not p.background && (not p.disown && no_redirects p.stages)))
