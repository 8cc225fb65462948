-- ===== src/History.antt =====
-- The persistent history of src/history.rs: the record file, its compaction, and the rules for
-- what is left out. The variables of the shell, the lock and the file come as arguments, the
-- regular expressions as a parameter.
pub mod Lines
pub mod RoundTrip
pub mod Parsed
pub mod Files
pub mod Behind
pub mod Rules
pub mod Append
use ion_win.Base.{
  ℕ, zero, suc, ◌-◌, Bool, true, false, not, ◌&&◌, ◌||◌, Option, none, some, List, [], ◌∷◌, ◌++◌,
  Text, if◌then◌else◌, ◌==◌, leb, length, drop, is_empty, text_eq, codes, map, retain,
}
use ion_win.Base.Chars.{is_whitespace, is_digit, is_ascii_letter}
use ion_win.Base.Decimal.{to_string}
use ion_win.Base.Parse.{parse_u64}

pub record HistoryRecord : Type 0 where
  pub timestamp : Option ℕ
  pub session : Option Text
  pub command : Text

-- `#@session=`
abbrev pub session_marker : Text
session_marker = codes "#@session="

-- `str::strip_prefix`
unfoldable pub strip_prefix : Text → Text → Option Text
strip_prefix [] s = some s
strip_prefix (p ∷ prefix) [] = none
strip_prefix (p ∷ prefix) (c ∷ s) = if p == c then strip_prefix prefix s else none

-- `bytes().all(|b| b.is_ascii_digit())`
unfoldable pub all_digits : Text → Bool
all_digits [] = true
all_digits (c ∷ s) = is_digit c && all_digits s

unfoldable pub is_timestamp_marker : Text → Bool
unfolding all_digits
is_timestamp_marker [] = false
is_timestamp_marker (c ∷ rest) = c == 35 && (not (is_empty rest) && all_digits rest)

abbrev pub opens_newline : Text → Bool
opens_newline [] = false
opens_newline (c ∷ s) = c == 10

abbrev pub extend_first : ℕ → List Text → List Text
extend_first c [] = (c ∷ []) ∷ []
extend_first c (line ∷ rest) = (c ∷ line) ∷ rest

-- `str::lines`: a line ends at a newline or at a carriage return with a newline behind it.
unfoldable pub text_lines : Text → List Text
text_lines [] = []
text_lines (c ∷ s) = elim (c == 10) [
  | true ↦ [] ∷ text_lines s
  | false ↦ if c == 13 && opens_newline s then text_lines s else extend_first c (text_lines s)
]

abbrev pub non_empty : Text → Option Text
non_empty [] = none
non_empty (c ∷ s) = some (c ∷ s)

-- The loop over the lines, with the session and the timestamp that are in force.
unfoldable pub parse_lines : Option Text → Option ℕ → List Text → List HistoryRecord
unfolding strip_prefix is_timestamp_marker parse_u64
parse_lines session timestamp [] = []
parse_lines session timestamp (line ∷ rest) = elim (strip_prefix session_marker line) [
  | some id ↦ parse_lines (non_empty id) timestamp rest
  | none ↦ elim (is_timestamp_marker line) [
    | true ↦ parse_lines session (parse_u64 (drop 1 line)) rest
    | false ↦
        record { timestamp = timestamp; session = session; command = line }
        ∷ parse_lines session none rest
  ]
]

unfoldable pub parse_records : Text → List HistoryRecord
unfolding parse_lines text_lines
parse_records contents = parse_lines none none (text_lines contents)

abbrev pub session_eq : Option Text → Option Text → Bool
session_eq none none = true
session_eq none (some _) = false
session_eq (some _) none = false
session_eq (some a) (some b) = text_eq a b

abbrev pub session_text : Option Text → Text
session_text none = []
session_text (some id) = id

abbrev pub newline : Text
newline = 10 ∷ []

unfoldable pub session_line : Option Text → Text
session_line session = session_marker ++ (session_text session ++ newline)

unfoldable pub timestamp_line : Option ℕ → Text
unfolding to_string
timestamp_line none = []
timestamp_line (some timestamp) = 35 ∷ (to_string timestamp ++ newline)

-- The loop over the records, with the session whose marker was written last.
unfoldable pub serialize_from : Option Text → List HistoryRecord → Text
unfolding session_line timestamp_line text_eq
serialize_from active [] = []
serialize_from active (r ∷ records) =
    (if session_eq r.session active then [] else session_line r.session)
    ++ (timestamp_line r.timestamp ++ (r.command ++ (newline ++ serialize_from r.session records)))

unfoldable pub serialize_records : List HistoryRecord → Text
unfolding serialize_from
serialize_records records = serialize_from none records

unfoldable pub retain_latest {ℓ} : {A : Type ℓ} → List A → ℕ → List A
retain_latest items limit =
    if leb (length items) limit then items else drop (length items - limit) items

-- What `compact_locked` leaves in the file, and the number of records that it returns.
unfoldable pub compact_locked : Text → ℕ → Text × ℕ
unfolding parse_records retain_latest serialize_records
compact_locked contents limit =
    let records = parse_records contents in
    let latest = retain_latest records limit in
    if leb (length records) limit
    then (contents, length records)
    else (serialize_records latest, length latest)

-- Letters, digits, `-`, `_` and `.`
abbrev pub in_id : ℕ → Bool
in_id c = is_ascii_letter c || (is_digit c || (c == 45 || (c == 95 || c == 46)))

unfoldable pub sanitize_id : Text → Text
sanitize_id [] = []
sanitize_id (c ∷ s) = (if in_id c then c else 95) ∷ sanitize_id s

-- The lines that `append` writes for the commands that are left.
unfoldable pub batch_lines : Option ℕ → List Text → Text
unfolding timestamp_line
batch_lines epoch [] = []
batch_lines epoch (line ∷ filtered) =
    timestamp_line epoch ++ (line ++ (newline ++ batch_lines epoch filtered))

-- The text that `append` adds to the file; the epoch is given if timestamps are on.
unfoldable pub append_batch : Text → Option ℕ → List Text → Text
unfolding batch_lines sanitize_id
append_batch id epoch filtered =
    session_marker ++ (sanitize_id id ++ (newline ++ batch_lines epoch filtered))
