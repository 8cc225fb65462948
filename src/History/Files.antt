-- ===== src/History/Files.antt =====
-- Files of whole lines, which src/history.rs reads and appends to, and where they may end.
use mathlib.Core.List.{append_assoc}
use ion_win.Base.{
  ℕ, ◌≡◌, refl, sym, ◌∙◌, ap, subst, ◌⊎◌, inl, inr, false, Option, none, some, List, [], ◌∷◌, ◌++◌,
  Text, All, All-append, Bool-cases, if◌then◌else◌, is_empty,
}
use ion_win.Base.Decimal.Reads.{to_string-Digits}
use ion_win.History.{
  HistoryRecord, session_marker, newline, session_eq, session_text, session_line, timestamp_line,
  serialize_from, serialize_records, sanitize_id, batch_lines, append_batch,
}
use ion_win.History.Lines.{
  IsLine, IsCommand, SessionOk, marker_lines, marker-IsLine, session_text-IsLine,
}
use ion_win.History.RoundTrip.{IsRecord, sanitize_id-IsLine}

-- The text of lines, each with its newline.
abbrev pub unlines : List Text → Text
unlines [] = []
unlines (line ∷ lines) = line ++ (newline ++ unlines lines)

-- A text of whole lines, without carriage returns.
pub record IsWhole (s : Text) : Type 0 where
  pub parts : List Text
  pub text : s ≡ unlines parts
  pub each : All IsLine parts

-- Whole lines, of which the last is a command.
pub record EndsInCommand (s : Text) : Type 0 where
  pub front : Text
  pub whole : IsWhole front
  pub command : Text
  pub is_command : IsCommand command
  pub text : s ≡ front ++ (command ++ newline)

-- A history file in which no line is broken off and no marker stands at the end.
abbrev pub IsFile : Text → Type 0
IsFile s = (s ≡ []) ⊎ EndsInCommand s

unlines-append : (a b : List Text) → unlines (a ++ b) ≡ unlines a ++ unlines b
unlines-append [] b = refl
unlines-append (line ∷ a) b =
    ap (λ t. line ++ (newline ++ t)) (unlines-append a b)
    ∙ sym (append_assoc line (newline ++ unlines a) (unlines b))

whole-append : {a b : Text} → IsWhole a → IsWhole b → IsWhole (a ++ b)
whole-append {b} v w = record {
  parts = v.parts ++ w.parts;
  text =
      ap (λ x. x ++ b) v.text
      ∙ ap (λ y. unlines v.parts ++ y) w.text
      ∙ sym (unlines-append v.parts w.parts);
  each = All-append IsLine v.parts w.parts v.each w.each;
}

whole_line : (line : Text) → IsLine line → IsWhole (line ++ newline)
whole_line line h = record { parts = line ∷ []; text = refl; each = (h, tt) }

whole_nil : IsWhole []
whole_nil = record { parts = []; text = refl; each = tt }

ends-behind : {a b : Text} → IsWhole a → EndsInCommand b → EndsInCommand (a ++ b)
ends-behind {a} v w = record {
  front = a ++ w.front;
  whole = whole-append v w.whole;
  command = w.command;
  is_command = w.is_command;
  text = ap (λ t. a ++ t) w.text ∙ sym (append_assoc a w.front (w.command ++ newline));
}

EndsInCommand-IsWhole : {s : Text} → EndsInCommand s → IsWhole s
EndsInCommand-IsWhole w =
    subst IsWhole (sym w.text) (whole-append w.whole (whole_line w.command w.is_command.line))

pub IsFile-IsWhole : {s : Text} → IsFile s → IsWhole s
IsFile-IsWhole (inl e) = subst IsWhole (sym e) whole_nil
IsFile-IsWhole (inr w) = EndsInCommand-IsWhole w

command-ends : {c s : Text} → IsCommand c → IsFile s → EndsInCommand (c ++ (newline ++ s))
command-ends {c} v (inl e) =
    subst (λ s. EndsInCommand (c ++ (newline ++ s))) (sym e)
      (record { front = []; whole = whole_nil; command = c; is_command = v; text = refl })
command-ends {c} {s} v (inr w) =
    subst EndsInCommand (append_assoc c newline s) (ends-behind (whole_line c v.line) w)

marker-IsWhole : (id : Text) → IsLine id → IsWhole (session_marker ++ (id ++ newline))
marker-IsWhole id h =
    subst IsWhole (append_assoc session_marker id newline)
      (whole_line (session_marker ++ id) (marker-IsLine id h))

timestamp_line-IsWhole : (timestamp : Option ℕ) → IsWhole (timestamp_line timestamp)
unfolding timestamp_line
timestamp_line-IsWhole none = whole_nil
timestamp_line-IsWhole (some n) =
    let (c, s, e, d, ds) = to_string-Digits n in
    subst (λ t. IsWhole (35 ∷ (t ++ newline))) (sym e)
      (whole_line (35 ∷ c ∷ s) (marker_lines c s d ds).0)

switch-IsWhole :
    (session active : Option Text)
    → SessionOk session
    → IsWhole (if session_eq session active then [] else session_line session)
unfolding session_line
switch-IsWhole session active h = elim (Bool-cases (session_eq session active)) [
  | inl e ↦ rw e whole_nil
  | inr e ↦ rw e (marker-IsWhole (session_text session) (session_text-IsLine session h))
]

serialize_from-IsFile :
    (records : List HistoryRecord) (active : Option Text)
    → All IsRecord records
    → IsFile (serialize_from active records)
unfolding serialize_from
serialize_from-IsFile [] active h = inl refl
serialize_from-IsFile (r ∷ records) active (v, vs) = inr (
    ends-behind (switch-IsWhole r.session active v.session) (
      ends-behind (timestamp_line-IsWhole r.timestamp)
        (command-ends v.command (serialize_from-IsFile records r.session vs))))

pub serialize_records-IsFile :
    (records : List HistoryRecord) → All IsRecord records → IsFile (serialize_records records)
unfolding serialize_records
serialize_records-IsFile records h = serialize_from-IsFile records none h

batch_lines-IsFile :
    (epoch : Option ℕ) (filtered : List Text)
    → All IsCommand filtered
    → IsFile (batch_lines epoch filtered)
unfolding batch_lines
batch_lines-IsFile epoch [] h = inl refl
batch_lines-IsFile epoch (line ∷ filtered) (v, vs) = inr (
    ends-behind (timestamp_line-IsWhole epoch)
      (command-ends v (batch_lines-IsFile epoch filtered vs)))

append_batch-EndsInCommand :
    (id : Text) (epoch : Option ℕ) (filtered : List Text)
    → is_empty filtered ≡ false
    → All IsCommand filtered
    → EndsInCommand (append_batch id epoch filtered)
unfolding append_batch batch_lines
append_batch-EndsInCommand id epoch [] e h = absurd (cc e)
append_batch-EndsInCommand id epoch (line ∷ filtered) e (v, vs) =
    let lines : Text = batch_lines epoch (line ∷ filtered) in
    subst EndsInCommand
      (append_assoc session_marker (sanitize_id id ++ newline) lines
        ∙ ap (λ t. session_marker ++ t) (append_assoc (sanitize_id id) newline lines))
      (ends-behind (marker-IsWhole (sanitize_id id) (sanitize_id-IsLine id)) (
        ends-behind (timestamp_line-IsWhole epoch)
          (command-ends v (batch_lines-IsFile epoch filtered vs))))

-- A file with a batch behind it is a file again.
pub append_batch-IsFile :
    (contents id : Text) (epoch : Option ℕ) (filtered : List Text)
    → IsFile contents
    → is_empty filtered ≡ false
    → All IsCommand filtered
    → IsFile (contents ++ append_batch id epoch filtered)
append_batch-IsFile contents id epoch filtered v e h =
    inr (ends-behind (IsFile-IsWhole v) (append_batch-EndsInCommand id epoch filtered e h))
