-- ===== src/History/RoundTrip.antt =====
-- What src/history.rs writes is what it reads: records, and the batch that `append` adds.
use mathlib.Core.List.{append_assoc, append-nil}
use ion_win.Base.{
  ltb, ℕ, ◌≡◌, refl, sym, ◌∙◌, ap, inl, inr, true, false, Option, none, some, List, [], ◌∷◌, ◌++◌,
  Text, if◌then◌else◌, ◌==◌, ltb, text_eq_sound, map, All, Bool-cases, contains, arith,
}
use ion_win.History.{
  HistoryRecord, text_lines, parse_lines, parse_records, newline, session_eq, session_line,
  timestamp_line, serialize_from, serialize_records, sanitize_id, in_id, batch_lines,
}
use ion_win.History.Lines.{
  IsLine, IsCommand, SessionOk, TimestampOk, parse-session_line, parse-record_lines,
}

pub record IsRecord (r : HistoryRecord) : Type 0 where
  pub command : IsCommand r.command
  pub session : SessionOk r.session
  pub timestamp : TimestampOk r.timestamp

session_eq_sound : (a b : Option Text) → session_eq a b ≡ true → a ≡ b
session_eq_sound none none h = refl
session_eq_sound none (some b) h = absurd (cc h)
session_eq_sound (some a) none h = absurd (cc h)
session_eq_sound (some a) (some b) h = ap some (text_eq_sound a b h)

-- The marker is written if the session changes.
parse-switch :
    (session active : Option Text) (rest : Text)
    → SessionOk session
    → parse_lines active none
        (text_lines ((if session_eq session active then [] else session_line session) ++ rest))
      ≡ parse_lines session none (text_lines rest)
parse-switch session active rest h = elim (Bool-cases (session_eq session active)) [
  | inl e ↦
      rw e
        (ap (λ s. parse_lines s none (text_lines rest)) (sym (session_eq_sound session active e)))
  | inr e ↦ rw e (parse-session_line session active none rest h)
]

-- Records in front of other lines.
append_assoc4 : (a b c d r : Text) → (a ++ (b ++ (c ++ d))) ++ r ≡ a ++ (b ++ (c ++ (d ++ r)))
append_assoc4 a b c d r =
    append_assoc a (b ++ (c ++ d)) r
    ∙ ap (λ t. a ++ t) (append_assoc b (c ++ d) r ∙ ap (λ t. b ++ t) (append_assoc c d r))

last_session : Option Text → List HistoryRecord → Option Text
last_session active [] = active
last_session active (r ∷ records) = last_session r.session records

parse-serialize_from :
    (records : List HistoryRecord) (active : Option Text) (rest : Text)
    → All IsRecord records
    → parse_lines active none (text_lines (serialize_from active records ++ rest))
      ≡ records ++ parse_lines (last_session active records) none (text_lines rest)
unfolding serialize_from last_session
parse-serialize_from [] active rest h = refl
parse-serialize_from (r ∷ records) active rest (v, vs) =
    let tail : Text = serialize_from r.session records in
    ap (λ t. parse_lines active none (text_lines t))
      (append_assoc4 (if session_eq r.session active then [] else session_line r.session)
        (timestamp_line r.timestamp) r.command (newline ++ tail) rest)
    ∙ parse-switch r.session active
        (timestamp_line r.timestamp ++ (r.command ++ (newline ++ (tail ++ rest)))) v.session
    ∙ parse-record_lines r.session r.timestamp r.command (tail ++ rest) v.timestamp v.command
    ∙ ap (r ∷◌) (parse-serialize_from records r.session rest vs)

-- Records with commands of one line that are no markers, sessions that are not empty and
-- timestamps of 64 bits: what is written for them is read as the same records.
pub parse_records-serialize_records :
    (records : List HistoryRecord)
    → All IsRecord records
    → parse_records (serialize_records records) ≡ records
unfolding parse_records serialize_records parse_lines text_lines
parse_records-serialize_records records v =
    ap (λ t. parse_lines none none (text_lines t)) (sym (append-nil (serialize_from none records)))
    ∙ parse-serialize_from records none [] v
    ∙ append-nil records

pub parse-batch_lines :
    (filtered : List Text) (session : Option Text) (epoch : Option ℕ)
    → TimestampOk epoch
    → All IsCommand filtered
    → parse_lines session none (text_lines (batch_lines epoch filtered))
      ≡ map (λ line. record { timestamp = epoch; session = session; command = line }) filtered
unfolding batch_lines parse_lines text_lines
parse-batch_lines [] session epoch h v = refl
parse-batch_lines (line ∷ filtered) session epoch h (v, vs) =
    parse-record_lines session epoch line (batch_lines epoch filtered) h v
    ∙ ap (record { timestamp = epoch; session = session; command = line } ∷◌)
        (parse-batch_lines filtered session epoch h vs)

in_id_apart : (a c : ℕ) → ltb c 45 ≡ true → ((if in_id a then a else 95) == c) ≡ false
in_id_apart a c h = elim (Bool-cases (in_id a)) [
  | inl e ↦ rw e (in_id_kept a c h e)
  | inr e ↦ rw e (ground (arith, h))
]
  where
    in_id_kept : (a c : ℕ) → ltb c 45 ≡ true → in_id a ≡ true → (a == c) ≡ false
    in_id_kept a c h e = ground (arith, h, e)

sanitize_id-contains : (id : Text) (c : ℕ) → ltb c 45 ≡ true → contains (sanitize_id id) c ≡ false
unfolding sanitize_id contains
sanitize_id-contains [] c h = refl
sanitize_id-contains (a ∷ id) c h = rw (in_id_apart a c h) (sanitize_id-contains id c h)

pub sanitize_id-IsLine : (id : Text) → IsLine (sanitize_id id)
sanitize_id-IsLine id =
    (sanitize_id-contains id 10 (ground arith), sanitize_id-contains id 13 (ground arith))
