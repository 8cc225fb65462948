-- ===== src/History/Append.antt =====
-- `append` and `load` of src/history.rs: the filter, the batch, the compaction, and what the next
-- prompt reads.
use ion_win.Base.{
  ℕ, ◌≡◌, refl, ◌≢◌, ◌∙◌, ap, ◌⊎◌, true, false, sym, subst, inl, inr, Bool, not, Option, none, some,
  List, [], ◌∷◌, ◌++◌, Text, if◌then◌else◌, map, retain, All, Bool-cases, is_empty, codes,
}
use ion_win.Base.Parse.{parse_u64}
use ion_win.History.{
  HistoryRecord, non_empty, parse_records, retain_latest, compact_locked, sanitize_id, append_batch,
}
use ion_win.History.Lines.{IsCommand, TimestampOk}
use ion_win.History.Parsed.{IsLatest, compact_locked-IsLatest, compact_locked-cases}
use ion_win.History.Files.{IsFile, append_batch-IsFile, serialize_records-IsFile}
use ion_win.History.Behind.{IsFile-IsRecord, parse_records-append_batch}
use ion_win.History.Rules.{
  apply_ignore_rules, apply_ignore_rules_lem, latest, member, passes, regexes, has_rule, rules_of,
}

-- `configured_limit`: the variable, if it is a number.
abbrev pub or_limit : Option ℕ → ℕ → ℕ
or_limit none default_limit = default_limit
or_limit (some limit) default_limit = limit

unfoldable pub configured_limit : Option Text → ℕ → ℕ
unfolding parse_u64
configured_limit none default_limit = default_limit
configured_limit (some value) default_limit = or_limit (parse_u64 value) default_limit

-- The variables that history reads; the epoch is given if timestamps are on.
pub record Config : Type 0 where
  pub enabled : Bool
  pub ignore : Option (List Text)
  pub session_id : Text
  pub epoch : Option ℕ
  pub file_size : Option Text
  pub size : Option Text

module _ (compile : Text → Option (Text → Bool)) where
  -- The file after `append`, if the lock is taken and the writes succeed.
  unfoldable pub append : Config → List Text → Text → Text
  unfolding apply_ignore_rules append_batch compact_locked configured_limit
  append config entries file =
      let filtered = apply_ignore_rules compile entries (rules_of config.ignore) in
      if not config.enabled
      then file
      else if is_empty entries
      then file
      else if is_empty filtered
      then file
      else (compact_locked (file ++ append_batch config.session_id config.epoch filtered)
          (configured_limit config.file_size 100000)).0

  -- `load`: no file is an empty history.
  unfoldable pub load : Config → Option Text → List Text
  unfolding apply_ignore_rules parse_records retain_latest configured_limit
  load config none = []
  load config (some contents) =
      if config.enabled
      then retain_latest
          (apply_ignore_rules compile (map (λ r. r.command) (parse_records contents))
            (rules_of config.ignore))
          (configured_limit config.size 1000)
      else []

All-retain :
    {A : Type 0} (P : A → Type 0) (p : A → Bool) (xs : List A) → All P xs → All P (retain p xs)
All-retain P p [] h = tt
All-retain P p (x ∷ xs) (h, hs) = elim (Bool-cases (p x)) [
  | inl e ↦ rw e (h, All-retain P p xs hs)
  | inr e ↦ rw e (All-retain P p xs hs)
]

All-latest : (P : Text → Type 0) (xs : List Text) → All P xs → All P (latest xs)
unfolding latest
All-latest P [] h = tt
All-latest P (x ∷ xs) (h, hs) = elim (Bool-cases (member x xs)) [
  | inl e ↦ rw e (All-latest P xs hs)
  | inr e ↦ rw e (h, All-latest P xs hs)
]

module _ (compile : Text → Option (Text → Bool)) where
  All-apply_ignore_rules :
      (P : Text → Type 0) (entries rules : List Text)
      → All P entries
      → All P (apply_ignore_rules compile entries rules)
  All-apply_ignore_rules P entries rules h =
      let keep : Text → Bool =
        passes compile (has_rule (codes "whitespace") rules) (regexes compile rules) in
      let kept : All P (retain keep entries) = All-retain P keep entries h in
      subst (All P) (sym (apply_ignore_rules_lem compile entries rules))
        (elim (Bool-cases (has_rule (codes "all") rules)) [
          | inl e ↦ rw e tt
          | inr e ↦ elim (Bool-cases (has_rule (codes "duplicates") rules)) [
            | inl f ↦ rw (e, f) (All-latest P (retain keep entries) kept)
            | inr f ↦ rw (e, f) kept
          ]
        ])

is_empty_sound : (xs : List Text) → is_empty xs ≡ true → xs ≡ []
is_empty_sound [] e = refl
is_empty_sound (x ∷ xs) e = absurd (cc e)

apply_ignore_rules-nil :
    (compile : Text → Option (Text → Bool)) (entries rules : List Text)
    → is_empty entries ≡ true
    → apply_ignore_rules compile entries rules ≡ []
unfolding latest
apply_ignore_rules-nil compile [] rules e =
    apply_ignore_rules_lem compile [] rules ∙ elim (Bool-cases (has_rule (codes "all") rules)) [
      | inl all ↦ rw all refl
      | inr some_kept ↦ elim (Bool-cases (has_rule (codes "duplicates") rules)) [
        | inl f ↦ rw (some_kept, f, latest) refl
        | inr f ↦ rw (some_kept, f) refl
      ]
    ]
apply_ignore_rules-nil compile (x ∷ entries) rules e = absurd (cc e)

-- The records of a batch.
abbrev pub batch_records : Config → List Text → List HistoryRecord
batch_records config filtered =
    map
      (λ line. record {
        timestamp = config.epoch;
        session = non_empty (sanitize_id config.session_id);
        command = line;
      })
      filtered

-- The file after `append` when the commands are `filtered`, which are not none.
append_filtered :
    (config : Config) (filtered : List Text) (contents : Text)
    → IsFile contents
    → TimestampOk config.epoch
    → All IsCommand filtered
    → is_empty filtered ≡ false
    → let text = contents ++ append_batch config.session_id config.epoch filtered in
      let limit = configured_limit config.file_size 100000 in
      IsFile (compact_locked text limit).0
      × IsLatest limit
          (parse_records contents ++ batch_records config filtered)
          (parse_records (compact_locked text limit).0)
append_filtered config filtered contents v h w e =
    let text : Text = contents ++ append_batch config.session_id config.epoch filtered in
    let limit : ℕ = configured_limit config.file_size 100000 in
    let file : IsFile text =
      append_batch-IsFile contents config.session_id config.epoch filtered v e w in
    let valid = IsFile-IsRecord text file in
    let read = parse_records-append_batch contents config.session_id config.epoch filtered v h w in
    (
      elim (compact_locked-cases text limit valid) [
        | inl same ↦ subst IsFile (sym same) file
        | inr (records, kept, written) ↦
            subst IsFile (sym written) (serialize_records-IsFile records kept)
      ],
      subst (λ all. IsLatest limit all (parse_records (compact_locked text limit).0)) read
          (compact_locked-IsLatest text limit valid),
    )

-- What `append` leaves: the file as it was, if history is off or no command is left to record; else
-- a file that is read as the end of the records before and the commands that are left.
pub record IsAppended (config : Config) (filtered : List Text) (contents file : Text) : Type 0 where
  pub is_file : IsFile file
  pub read :
      ((file ≡ contents) × ((config.enabled ≡ false) ⊎ (filtered ≡ [])))
      ⊎ ((config.enabled ≡ true)
          × (filtered ≢ [])
          × IsLatest
              (configured_limit config.file_size 100000)
              (parse_records contents ++ batch_records config filtered)
              (parse_records file))

-- A file of whole lines that is empty or ends in a command, and commands of one line that are no
-- markers. If history is on and the rules leave some of the commands, then after `append` the file
-- is read as the end of the records before and the commands that the rules leave, each with the
-- session and the time of the batch, with as many of them as there are or as the limit of the file
-- allows; otherwise the file is as it was. In each case the file is again of whole lines, and empty
-- or with a command at its end, so this holds of any number of calls.
pub parse_records-append :
    (compile : Text → Option (Text → Bool)) (config : Config) (entries : List Text)
    (contents : Text)
    → IsFile contents
    → TimestampOk config.epoch
    → All IsCommand entries
    → IsAppended config
        (apply_ignore_rules compile entries (rules_of config.ignore))
        contents
        (append compile config entries contents)
unfolding append
parse_records-append compile config entries contents v h w =
    let rules : List Text = rules_of config.ignore in
    let filtered : List Text = apply_ignore_rules compile entries rules in
    let valid : All IsCommand filtered = All-apply_ignore_rules compile IsCommand entries rules w in
    elim (Bool-cases config.enabled) [
      | inr off ↦ simp off (record { is_file = v; read = inl (refl, inl off) })
      | inl on ↦ elim (Bool-cases (is_empty entries)) [
        | inl none_given ↦
            simp (on, none_given)
              (record {
                is_file = v;
                read = inl (refl, inr (apply_ignore_rules-nil compile entries rules none_given));
              })
        | inr given ↦ elim (Bool-cases (is_empty filtered)) [
          | inl none_left ↦
              simp (on, given, none_left)
                (record { is_file = v; read = inl (refl, inr (is_empty_sound filtered none_left)) })
          | inr left ↦
              let (file, read) = append_filtered config filtered contents v h valid left in
              simp (on, given, left)
                (record { is_file = file; read = inr (on, (λ e. cc (ap is_empty e, left)), read) })
        ]
      ]
    ]
