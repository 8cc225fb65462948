-- ===== src/History/Lines.antt =====
-- The lines of a text, and the lines that src/history.rs writes.
use ion_win.Base.{
  ℕ, ◌≡◌, refl, sym, ◌∙◌, ap, subst, inl, inr, true, false, ◌||◌, Option, none, some, List, [], ◌∷◌,
  ◌++◌, Text, ◌==◌, is_empty, contains, All, Bool-cases, arith, ◌^◌, ◌<◌, drop,
}
use mathlib.Core.List.{append_assoc}
use ion_win.Base.Decimal.{to_string}
use ion_win.Base.Decimal.Reads.{IsDigit, to_string-Digits, parse_u64-to_string}
use ion_win.Base.Parse.{parse_u64}
use ion_win.History.{
  session_marker, strip_prefix, all_digits, is_timestamp_marker, extend_first, text_lines,
  non_empty, parse_lines, newline, session_text, session_line, timestamp_line,
}

-- A text without a newline and without a carriage return.
abbrev pub IsLine : Text → Type 0
IsLine s = (contains s 10 ≡ false) × (contains s 13 ≡ false)

pub text_lines-line :
    (line s : Text) → IsLine line → text_lines (line ++ (newline ++ s)) ≡ line ∷ text_lines s
unfolding text_lines contains
text_lines-line [] s h = refl
text_lines-line (c ∷ line) s (n, r) =
    let inside : (c == 10) ≡ false = ground (arith, n) in
    let kept : (c == 13) ≡ false = ground (arith, r) in
    let rest : text_lines (line ++ (newline ++ s)) ≡ line ∷ text_lines s =
      text_lines-line line s (ground (arith, n), ground (arith, r)) in
    rw (text_lines, inside, kept) (ap (extend_first c) rest)

pub contains-append :
    (s t : Text) (c : ℕ) → contains s c ≡ false → contains t c ≡ false → contains (s ++ t) c ≡ false
unfolding contains
contains-append [] t c h k = k
contains-append (a ∷ s) t c h k = elim (Bool-cases (a == c)) [
  | inl e ↦ absurd (cc (e, h))
  | inr e ↦ rw e (contains-append s t c (subst (λ b. (b || contains s c) ≡ false) e h) k)
]

pub strip_prefix-append : (p s : Text) → strip_prefix p (p ++ s) ≡ some s
unfolding strip_prefix
strip_prefix-append [] s = refl
strip_prefix-append (c ∷ p) s =
    let same : (c == c) ≡ true = ground arith in rw same (strip_prefix-append p s)

all_digits_lem : (s : Text) → All IsDigit s → all_digits s ≡ true
unfolding all_digits
all_digits_lem [] h = refl
all_digits_lem (c ∷ s) (d, ds) = rw (d, all_digits_lem s ds) refl

digits-contains : (s : Text) (c : ℕ) → c < 48 → All IsDigit s → contains s c ≡ false
unfolding contains
digits-contains [] c h ds = refl
digits-contains (a ∷ s) c h (d, ds) =
    let apart : (a == c) ≡ false = ground (arith, d, h) in rw apart (digits-contains s c h ds)

-- A command that is no marker.
pub record IsCommand (command : Text) : Type 0 where
  pub line : IsLine command
  pub no_session : strip_prefix session_marker command ≡ none
  pub no_timestamp : is_timestamp_marker command ≡ false

abbrev pub SessionOk : Option Text → Type 0
SessionOk none = Unit
SessionOk (some id) = IsLine id × (is_empty id ≡ false)

abbrev pub TimestampOk : Option ℕ → Type 0
TimestampOk none = Unit
TimestampOk (some timestamp) = timestamp < 2 ^ 64

pub non_empty-SessionOk : (id : Text) → IsLine id → SessionOk (non_empty id)
non_empty-SessionOk [] h = tt
non_empty-SessionOk (c ∷ id) h = (h, refl)

session_marker-IsLine : IsLine session_marker
unfolding contains
session_marker-IsLine = (refl, refl)

pub session_text-IsLine :
    (session : Option Text) → SessionOk session → IsLine (session_text session)
unfolding contains
session_text-IsLine none h = (refl, refl)
session_text-IsLine (some id) h = h.0

non_empty-session_text :
    (session : Option Text) → SessionOk session → non_empty (session_text session) ≡ session
non_empty-session_text none h = refl
non_empty-session_text (some []) (l, e) = absurd (cc e)
non_empty-session_text (some (c ∷ id)) h = refl

module _ (session : Option Text) (timestamp : Option ℕ) (line : Text) (rest : List Text) where
  parse_session :
      (id : Text)
      → strip_prefix session_marker line ≡ some id
      → parse_lines session timestamp (line ∷ rest) ≡ parse_lines (non_empty id) timestamp rest
  unfolding parse_lines
  parse_session id e = rw (parse_lines, e) refl

  parse_timestamp :
      strip_prefix session_marker line ≡ none
      → is_timestamp_marker line ≡ true
      → parse_lines session timestamp (line ∷ rest)
        ≡ parse_lines session (parse_u64 (drop 1 line)) rest
  unfolding parse_lines
  parse_timestamp e f = rw (parse_lines, e, f) refl

  pub parse_command :
      strip_prefix session_marker line ≡ none
      → is_timestamp_marker line ≡ false
      → parse_lines session timestamp (line ∷ rest)
        ≡ record { timestamp = timestamp; session = session; command = line }
          ∷ parse_lines session none rest
  unfolding parse_lines
  parse_command e f = rw (parse_lines, e, f) refl

pub marker-IsLine : (id : Text) → IsLine id → IsLine (session_marker ++ id)
marker-IsLine id (n, r) = (
  contains-append session_marker id 10 session_marker-IsLine.0 n,
  contains-append session_marker id 13 session_marker-IsLine.1 r,
)

-- A marker of a session puts the session in force.
pub parse-marker :
    (id : Text) (active : Option Text) (timestamp : Option ℕ) (rest : Text)
    → IsLine id
    → parse_lines active timestamp (text_lines (session_marker ++ (id ++ (newline ++ rest))))
      ≡ parse_lines (non_empty id) timestamp (text_lines rest)
unfolding parse_lines
parse-marker id active timestamp rest h =
    ap (parse_lines active timestamp) (
      ap text_lines (sym (append_assoc session_marker id (newline ++ rest)))
      ∙ text_lines-line (session_marker ++ id) rest (marker-IsLine id h))
    ∙ parse_session active timestamp (session_marker ++ id) (text_lines rest) id
        (strip_prefix-append session_marker id)

pub parse-session_line :
    (session active : Option Text) (timestamp : Option ℕ) (rest : Text)
    → SessionOk session
    → parse_lines active timestamp (text_lines (session_line session ++ rest))
      ≡ parse_lines session timestamp (text_lines rest)
unfolding session_line
parse-session_line session active timestamp rest h =
    ap (λ t. parse_lines active timestamp (text_lines t))
      (append_assoc session_marker (session_text session ++ newline) rest
        ∙ ap (λ t. session_marker ++ t) (append_assoc (session_text session) newline rest))
    ∙ parse-marker (session_text session) active timestamp rest (session_text-IsLine session h)
    ∙ ap (λ s. parse_lines s timestamp (text_lines rest)) (non_empty-session_text session h)

pub marker_lines :
    (c : ℕ) (s : Text)
    → IsDigit c
    → All IsDigit s
    → IsLine (35 ∷ c ∷ s)
      × (strip_prefix session_marker (35 ∷ c ∷ s) ≡ none)
      × (is_timestamp_marker (35 ∷ c ∷ s) ≡ true)
unfolding strip_prefix is_timestamp_marker contains
marker_lines c s d ds =
    let apart : (64 == c) ≡ false = ground (arith, d) in
    let n : (c == 10) ≡ false = ground (arith, d) in
    let r : (c == 13) ≡ false = ground (arith, d) in
    (
      (rw n (digits-contains s 10 (omega arith) ds), rw r (digits-contains s 13 (omega arith) ds)),
      rw apart refl,
      rw (d, all_digits_lem s ds) refl,
    )

pub parse-timestamp_line :
    (session : Option Text) (timestamp : Option ℕ) (rest : Text)
    → TimestampOk timestamp
    → parse_lines session none (text_lines (timestamp_line timestamp ++ rest))
      ≡ parse_lines session timestamp (text_lines rest)
unfolding timestamp_line parse_lines
parse-timestamp_line session none rest h = refl
parse-timestamp_line session (some n) rest h =
    let (c, s, e, d, ds) = to_string-Digits n in
    let (line, no_session, marker) = marker_lines c s d ds in
    let read : parse_u64 (c ∷ s) ≡ some n = ap parse_u64 (sym e) ∙ parse_u64-to_string n h in
    ap (λ t. parse_lines session none (text_lines (35 ∷ t)))
      (append_assoc (to_string n) newline rest ∙ ap (λ t. t ++ (newline ++ rest)) e)
    ∙ ap (parse_lines session none) (text_lines-line (35 ∷ c ∷ s) rest line)
    ∙ parse_timestamp session none (35 ∷ c ∷ s) (text_lines rest) no_session marker
    ∙ ap (λ t. parse_lines session t (text_lines rest)) read

-- The lines of a record are read as that record.
pub parse-record_lines :
    (session : Option Text) (timestamp : Option ℕ) (command rest : Text)
    → TimestampOk timestamp
    → IsCommand command
    → parse_lines session none
        (text_lines (timestamp_line timestamp ++ (command ++ (newline ++ rest))))
      ≡ record { timestamp = timestamp; session = session; command = command }
        ∷ parse_lines session none (text_lines rest)
unfolding parse_lines
parse-record_lines session timestamp command rest h v =
    parse-timestamp_line session timestamp (command ++ (newline ++ rest)) h
    ∙ ap (parse_lines session timestamp) (text_lines-line command rest v.line)
    ∙ rw (v.no_session, v.no_timestamp) refl
