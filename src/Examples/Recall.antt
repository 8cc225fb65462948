-- ===== src/Examples/Recall.antt =====
-- The history of src/history.rs at concrete files.
use ion_win.Base.{
  inr, retain, ◌≡◌, refl, Bool, true, Option, none, some, [], ◌∷◌, Text, if◌then◌else◌, length,
  codes, contains, arith,
}
use ion_win.History.{
  HistoryRecord, parse_records, compact_locked, is_timestamp_marker, strip_prefix,
}
use ion_win.History.Lines.{IsCommand}
use ion_win.History.Files.{IsFile}
use ion_win.History.Parsed.{IsLatest, parse_records-compact_locked}
use ion_win.History.Rules.{
  apply_ignore_rules, apply_ignore_rules_lem, passes, regexes, has_rule, latest, rules_of,
}
use ion_win.History.Append.{IsAppended, Config, append, parse_records-append}

abbrev file : Text
file = codes "echo a\n#@session=w\n#17\necho b\necho c\n"

abbrev record_a : HistoryRecord
record_a = record { timestamp = none; session = none; command = codes "echo a" }

abbrev record_b : HistoryRecord
record_b = record { timestamp = some 17; session = some (codes "w"); command = codes "echo b" }

abbrev record_c : HistoryRecord
record_c = record { timestamp = none; session = some (codes "w"); command = codes "echo c" }

file-records : parse_records file ≡ record_a ∷ record_b ∷ record_c ∷ []
unfolding parse_records
file-records = refl

file-compacted : compact_locked file 2 ≡ (codes "#@session=w\n#17\necho b\necho c\n", 2)
unfolding compact_locked
file-compacted = refl

parse_records-compact_locked_example :
    IsLatest 2 (parse_records file) (parse_records (compact_locked file 2).0)
    × ((compact_locked file 2).1 ≡ length (parse_records (compact_locked file 2).0))
unfolding contains
parse_records-compact_locked_example = parse_records-compact_locked file 2 refl

abbrev no_regex : Text → Option (Text → Bool)
no_regex pattern = none

apply_ignore_rules_lem_example :
    apply_ignore_rules no_regex (codes "a" ∷ codes " b" ∷ codes "a" ∷ []) (codes "duplicates" ∷ [])
    ≡ (if has_rule (codes "all") (codes "duplicates" ∷ [])
        then []
        else if has_rule (codes "duplicates") (codes "duplicates" ∷ [])
        then latest (
            retain
              (passes no_regex
                (has_rule (codes "whitespace") (codes "duplicates" ∷ []))
                (regexes no_regex (codes "duplicates" ∷ [])))
              (codes "a" ∷ codes " b" ∷ codes "a" ∷ []))
        else retain
            (passes no_regex
              (has_rule (codes "whitespace") (codes "duplicates" ∷ []))
              (regexes no_regex (codes "duplicates" ∷ [])))
            (codes "a" ∷ codes " b" ∷ codes "a" ∷ []))
apply_ignore_rules_lem_example =
    apply_ignore_rules_lem no_regex (codes "a" ∷ codes " b" ∷ codes "a" ∷ [])
      (codes "duplicates" ∷ [])

rules-run :
    apply_ignore_rules no_regex
      (codes "a" ∷ codes " b" ∷ codes "a" ∷ codes "c" ∷ [])
      (codes "duplicates" ∷ codes "whitespace" ∷ [])
    ≡ codes "a" ∷ codes "c" ∷ []
unfolding apply_ignore_rules
rules-run = refl

abbrev config : Config
config = record {
  enabled = true;
  ignore = none;
  session_id = codes "s 1";
  epoch = some 20;
  file_size = some (codes "2");
  size = none;
}

-- What two appends of one session leave: its marker stands there twice.
abbrev twice : Text
twice = codes "#@session=w\necho b\n#@session=w\necho c\n"

c-IsCommand : IsCommand (codes "echo c")
unfolding contains strip_prefix is_timestamp_marker
c-IsCommand = record { line = (refl, refl); no_session = refl; no_timestamp = refl }

ls-IsCommand : IsCommand (codes "ls")
unfolding contains strip_prefix is_timestamp_marker
ls-IsCommand = record { line = (refl, refl); no_session = refl; no_timestamp = refl }

twice-IsFile : IsFile twice
unfolding contains
twice-IsFile = inr (record {
  front = codes "#@session=w\necho b\n#@session=w\n";
  whole = record {
    parts = codes "#@session=w" ∷ codes "echo b" ∷ codes "#@session=w" ∷ [];
    text = refl;
    each = ((refl, refl), ((refl, refl), ((refl, refl), tt)));
  };
  command = codes "echo c";
  is_command = c-IsCommand;
  text = refl;
})

-- The limit of two leaves the last command and the new one.
twice_appended :
    append no_regex config (codes "ls" ∷ []) twice
    ≡ codes "#@session=w\necho c\n#@session=s_1\n#20\nls\n"
unfolding append
twice_appended = refl

parse_records-append_example :
    IsAppended config
      (apply_ignore_rules no_regex (codes "ls" ∷ []) (rules_of config.ignore))
      twice
      (append no_regex config (codes "ls" ∷ []) twice)
parse_records-append_example =
    parse_records-append no_regex config (codes "ls" ∷ []) twice twice-IsFile (omega arith)
      (ls-IsCommand, tt)
