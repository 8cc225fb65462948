-- ===== src/History/Behind.antt =====
-- What src/history.rs reads of a file of whole lines with a text behind it.
use mathlib.Core.List.{append_assoc, append-nil}
use ion_win.Base.{
  ℕ, ◌≡◌, refl, sym, ◌∙◌, ap, subst, inl, inr, Option, none, List, [], ◌∷◌, ◌++◌, Text, All,
  Bool-cases, Option-cases, drop, map,
}
use ion_win.Base.Parse.{parse_u64}
use ion_win.History.{
  session_marker, strip_prefix, is_timestamp_marker, text_lines, non_empty, parse_lines,
  parse_records, newline, sanitize_id, batch_lines, append_batch,
}
use ion_win.History.Lines.{
  IsLine, IsCommand, TimestampOk, text_lines-line, parse_command, parse-marker,
}
use ion_win.History.RoundTrip.{IsRecord, sanitize_id-IsLine, parse-batch_lines}
use ion_win.History.Files.{unlines, IsFile, IsFile-IsWhole}
use ion_win.History.Parsed.{parse_lines-IsRecord}

text_lines-unlines :
    (lines : List Text) (rest : Text)
    → All IsLine lines
    → text_lines (unlines lines ++ rest) ≡ lines ++ text_lines rest
text_lines-unlines [] rest h = refl
text_lines-unlines (line ∷ lines) rest (h, hs) =
    ap text_lines (append_assoc line (newline ++ unlines lines) rest)
    ∙ text_lines-line line (unlines lines ++ rest) h
    ∙ ap (line ∷◌) (text_lines-unlines lines rest hs)

-- What a file is read as is well formed.
pub IsFile-IsRecord : (contents : Text) → IsFile contents → All IsRecord (parse_records contents)
unfolding parse_records text_lines
IsFile-IsRecord contents v =
    let w = IsFile-IsWhole v in
    let split : text_lines contents ≡ w.parts =
      ap text_lines (w.text ∙ sym (append-nil (unlines w.parts)))
      ∙ text_lines-unlines w.parts [] w.each
      ∙ append-nil w.parts in
    subst (λ lines. All IsRecord (parse_lines none none lines)) (sym split)
      (parse_lines-IsRecord none none w.parts tt tt w.each)

-- Behind a command no time is in force.
parse_lines-behind :
    (lines : List Text) (session : Option Text) (timestamp : Option ℕ) (command : Text)
    (rest : List Text)
    → IsCommand command
    → (active : Option Text) × (parse_lines session timestamp (lines ++ (command ∷ rest))
        ≡ parse_lines session timestamp (lines ++ (command ∷ [])) ++ parse_lines active none rest)
unfolding parse_lines
parse_lines-behind [] session timestamp command rest v = (
  session,
  parse_command session timestamp command rest v.no_session v.no_timestamp
      ∙ ap (λ read. read ++ parse_lines session none rest)
          (sym (parse_command session timestamp command [] v.no_session v.no_timestamp)),
)
parse_lines-behind (line ∷ lines) session timestamp command rest v =
    elim (Option-cases (strip_prefix session_marker line)) [
      | inr (id, e) ↦
          rw (parse_lines, e) (parse_lines-behind lines (non_empty id) timestamp command rest v)
      | inl e ↦ elim (Bool-cases (is_timestamp_marker line)) [
        | inl f ↦
            rw (parse_lines, e, f)
              (parse_lines-behind lines session (parse_u64 (drop 1 line)) command rest v)
        | inr f ↦
            let (active, later) = parse_lines-behind lines session none command rest v in
            rw (parse_lines, e, f)
              (
                active,
                ap (record { timestamp = timestamp; session = session; command = line } ∷◌) later,
              )
      ]
    ]

-- A file is read as before if something is written behind it.
parse_records-behind :
    (contents rest : Text)
    → IsFile contents
    → (active : Option Text) × (parse_records (contents ++ rest)
        ≡ parse_records contents ++ parse_lines active none (text_lines rest))
unfolding parse_records parse_lines text_lines
parse_records-behind contents rest (inl e) = (none, rw e refl)
parse_records-behind contents rest (inr w) =
    let lines : List Text = w.whole.parts in
    let split : (tail : Text)
        → text_lines (contents ++ tail) ≡ lines ++ (w.command ∷ text_lines tail) =
      λ tail.
        ap (λ s. text_lines (s ++ tail))
          (w.text ∙ ap (λ t. t ++ (w.command ++ newline)) w.whole.text)
        ∙ ap text_lines (append_assoc (unlines lines) (w.command ++ newline) tail)
        ∙ text_lines-unlines lines ((w.command ++ newline) ++ tail) w.whole.each
        ∙ ap (λ t. lines ++ text_lines t) (append_assoc w.command newline tail)
        ∙ ap (λ t. lines ++ t) (text_lines-line w.command tail w.is_command.line) in
    let (active, read) =
      parse_lines-behind lines none none w.command (text_lines rest) w.is_command in
    let alone : text_lines contents ≡ lines ++ (w.command ∷ []) =
      ap text_lines (sym (append-nil contents)) ∙ split [] in
    (
      active,
      ap (parse_lines none none) (split rest)
          ∙ read
          ∙ ap (λ t. parse_lines none none t ++ parse_lines active none (text_lines rest))
              (sym alone),
    )

-- The batch behind a file is read as its commands, each with the time and the session of the batch.
-- The session may be any text: what is not allowed in it is replaced, and an empty one counts as
-- none.
pub parse_records-append_batch :
    (contents id : Text) (epoch : Option ℕ) (filtered : List Text)
    → IsFile contents
    → TimestampOk epoch
    → All IsCommand filtered
    → parse_records (contents ++ append_batch id epoch filtered)
      ≡ parse_records contents
        ++ map
            (λ line. record {
              timestamp = epoch;
              session = non_empty (sanitize_id id);
              command = line;
            })
            filtered
unfolding append_batch
parse_records-append_batch contents id epoch filtered v h w =
    let (active, read) = parse_records-behind contents (append_batch id epoch filtered) v in
    read
    ∙ ap (λ rest. parse_records contents ++ rest)
        (parse-marker (sanitize_id id) active none (batch_lines epoch filtered)
            (sanitize_id-IsLine id)
          ∙ parse-batch_lines filtered (non_empty (sanitize_id id)) epoch h w)
