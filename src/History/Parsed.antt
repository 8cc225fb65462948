-- ===== src/History/Parsed.antt =====
-- What src/history.rs reads is well formed, so that compaction keeps the latest records.
use Prim.Native.Nat.{min}
use ion_win.Base.{
  ℕ, zero, suc, ◌-◌, ◌^◌, ◌≡◌, refl, sym, ◌∙◌, ap, subst, inl, inr, true, false, ◌||◌, Option, none,
  some, List, [], ◌∷◌, ◌++◌, ◌⊎◌, take, take-append-drop, Text, if◌then◌else◌, ◌==◌, ltb, leb,
  length, length-drop, drop, contains, All, Bool-cases, Option-cases, arith,
}
use ion_win.Base.Parse.{parse_u64, fits_u64, magnitude}
use ion_win.History.{
  HistoryRecord, session_marker, strip_prefix, is_timestamp_marker, text_lines, extend_first,
  non_empty, parse_lines, parse_records, retain_latest, serialize_records, compact_locked,
}
use ion_win.History.Lines.{IsLine, SessionOk, TimestampOk, non_empty-SessionOk}
use ion_win.History.RoundTrip.{IsRecord, parse_records-serialize_records}

extend_first-IsLine :
    (c : ℕ) (lines : List Text)
    → (c == 10) ≡ false
    → (c == 13) ≡ false
    → All IsLine lines
    → All IsLine (extend_first c lines)
unfolding contains
extend_first-IsLine c [] n r h = ((rw n refl, rw r refl), tt)
extend_first-IsLine c (line ∷ rest) n r ((h, k), hs) = ((rw n h, rw r k), hs)

text_lines-IsLine : (s : Text) → contains s 13 ≡ false → All IsLine (text_lines s)
unfolding text_lines contains
text_lines-IsLine [] h = tt
text_lines-IsLine (c ∷ s) h = elim (Bool-cases (c == 13)) [
  | inl e ↦ absurd (cc (e, h))
  | inr e ↦
      let later : All IsLine (text_lines s) =
        text_lines-IsLine s (subst (λ b. (b || contains s 13) ≡ false) e h) in
      elim (Bool-cases (c == 10)) [
        | inl f ↦ rw (text_lines, f) ((refl, refl), later)
        | inr f ↦ rw (text_lines, f, e) (extend_first-IsLine c (text_lines s) f e later)
      ]
]

fits_u64-TimestampOk : (o : Option ℕ) → TimestampOk (fits_u64 o)
fits_u64-TimestampOk none = tt
fits_u64-TimestampOk (some n) = elim (Bool-cases (ltb n (2 ^ 64))) [
  | inl e ↦ rw e (ground arith)
  | inr e ↦ rw e tt
]

parse_u64-TimestampOk : (s : Text) → TimestampOk (parse_u64 s)
unfolding parse_u64
parse_u64-TimestampOk [] = tt
parse_u64-TimestampOk (c ∷ s) = elim (Bool-cases (c == 43)) [
  | inl e ↦ rw e (fits_u64-TimestampOk (magnitude s))
  | inr e ↦ rw e (fits_u64-TimestampOk (magnitude (c ∷ s)))
]

strip_prefix-contains :
    (p s rest : Text) (c : ℕ)
    → strip_prefix p s ≡ some rest
    → contains s c ≡ false
    → contains rest c ≡ false
unfolding strip_prefix contains
strip_prefix-contains [] s rest c h k =
    let same : s ≡ rest = cc h in subst (λ t. contains t c ≡ false) same k
strip_prefix-contains (a ∷ p) [] rest c h k = absurd (cc h)
strip_prefix-contains (a ∷ p) (b ∷ s) rest c h k = elim (Bool-cases (a == b)) [
  | inr e ↦ absurd (cc (e, h))
  | inl e ↦ elim (Bool-cases (b == c)) [
    | inl f ↦ absurd (cc (f, k))
    | inr f ↦
        strip_prefix-contains p s rest c
          (subst (λ t. (if t then strip_prefix p s else none) ≡ some rest) e h)
          (subst (λ t. (t || contains s c) ≡ false) f k)
  ]
]

pub parse_lines-IsRecord :
    (session : Option Text) (timestamp : Option ℕ) (lines : List Text)
    → SessionOk session
    → TimestampOk timestamp
    → All IsLine lines
    → All IsRecord (parse_lines session timestamp lines)
unfolding parse_lines
parse_lines-IsRecord session timestamp [] h k v = tt
parse_lines-IsRecord session timestamp (line ∷ rest) h k (v, vs) =
    elim (Option-cases (strip_prefix session_marker line)) [
      | inr (id, e) ↦
          rw (parse_lines, e)
            (parse_lines-IsRecord (non_empty id) timestamp rest
              (non_empty-SessionOk id (
                strip_prefix-contains session_marker line id 10 e v.0,
                strip_prefix-contains session_marker line id 13 e v.1,
              ))
              k vs)
      | inl e ↦ elim (Bool-cases (is_timestamp_marker line)) [
        | inl f ↦
            rw (parse_lines, e, f)
              (parse_lines-IsRecord session (parse_u64 (drop 1 line)) rest h
                (parse_u64-TimestampOk (drop 1 line)) vs)
        | inr f ↦
            rw (parse_lines, e, f)
              (
                record {
                  command = record { line = v; no_session = e; no_timestamp = f };
                  session = h;
                  timestamp = k;
                },
                parse_lines-IsRecord session none rest h tt vs,
              )
      ]
    ]

parse_records-IsRecord :
    (contents : Text) → contains contents 13 ≡ false → All IsRecord (parse_records contents)
unfolding parse_records
parse_records-IsRecord contents h =
    parse_lines-IsRecord none none (text_lines contents) tt tt (text_lines-IsLine contents h)

All-drop : {A : Type 0} (P : A → Type 0) (n : ℕ) (xs : List A) → All P xs → All P (drop n xs)
All-drop P zero xs h = h
All-drop P (suc n) [] h = tt
All-drop P (suc n) (x ∷ xs) (h, hs) = All-drop P n xs hs

retain_latest-IsRecord :
    (records : List HistoryRecord) (limit : ℕ)
    → All IsRecord records
    → All IsRecord (retain_latest records limit)
unfolding retain_latest
retain_latest-IsRecord records limit h = elim (Bool-cases (leb (length records) limit)) [
  | inl e ↦ rw e h
  | inr e ↦ rw e (All-drop IsRecord (length records - limit) records h)
]

-- The end of a list: as long as the limit allows.
pub record IsLatest {A : Type 0} (limit : ℕ) (all latest : List A) : Type 0 where
  pub older : List A
  pub split : all ≡ older ++ latest
  pub size : length latest ≡ min (length all) limit

module _ {A : Type 0} (items : List A) (limit : ℕ) where
  retain_short : leb (length items) limit ≡ true → retain_latest items limit ≡ items
  unfolding retain_latest
  retain_short e = rw e refl

  latest_is : leb (length items) limit ≡ true → IsLatest limit items items
  latest_is e = record { older = []; split = refl; size = ground arith }

  latest_dropped :
      leb (length items) limit ≡ false → IsLatest limit items (drop (length items - limit) items)
  latest_dropped e = record {
    older = take (length items - limit) items;
    split = sym (take-append-drop (length items - limit) items);
    size = ground (arith, length-drop (length items - limit) items);
  }

  retain_latest-IsLatest : IsLatest limit items (retain_latest items limit)
  unfolding retain_latest
  retain_latest-IsLatest = elim (Bool-cases (leb (length items) limit)) [
    | inl e ↦ rw e (latest_is e)
    | inr e ↦ rw e (latest_dropped e)
  ]

module _ (contents : Text) (limit : ℕ) where
  compact_short :
      leb (length (parse_records contents)) limit ≡ true
      → compact_locked contents limit ≡ (contents, length (parse_records contents))
  unfolding compact_locked
  compact_short e = rw e refl

  compact_long :
      leb (length (parse_records contents)) limit ≡ false
      → compact_locked contents limit ≡ (
        serialize_records (retain_latest (parse_records contents) limit),
        length (retain_latest (parse_records contents) limit),
      )
  unfolding compact_locked
  compact_long e = rw e refl

module _ (contents : Text) (limit : ℕ) (v : All IsRecord (parse_records contents)) where
  compact_locked-retain_latest :
      parse_records (compact_locked contents limit).0 ≡ retain_latest (parse_records contents) limit
  compact_locked-retain_latest = elim (Bool-cases (leb (length (parse_records contents)) limit)) [
    | inl e ↦
        ap (λ x. parse_records x.0) (compact_short contents limit e)
        ∙ sym (retain_short (parse_records contents) limit e)
    | inr e ↦
        ap (λ x. parse_records x.0) (compact_long contents limit e)
        ∙ parse_records-serialize_records (retain_latest (parse_records contents) limit)
            (retain_latest-IsRecord (parse_records contents) limit v)
  ]

  compact_locked-count :
      (compact_locked contents limit).1 ≡ length (retain_latest (parse_records contents) limit)
  compact_locked-count = elim (Bool-cases (leb (length (parse_records contents)) limit)) [
    | inl e ↦
        ap (λ x. x.1) (compact_short contents limit e)
        ∙ ap length (sym (retain_short (parse_records contents) limit e))
    | inr e ↦ ap (λ x. x.1) (compact_long contents limit e)
  ]

  pub compact_locked-IsLatest :
      IsLatest limit (parse_records contents) (parse_records (compact_locked contents limit).0)
  compact_locked-IsLatest =
      subst (IsLatest limit (parse_records contents)) (sym compact_locked-retain_latest)
        (retain_latest-IsLatest (parse_records contents) limit)

-- What is in the file after a compaction: the same text, or well-formed records.
pub compact_locked-cases :
    (contents : Text) (limit : ℕ)
    → All IsRecord (parse_records contents)
    → ((compact_locked contents limit).0 ≡ contents)
      ⊎ ((records : List HistoryRecord) × All IsRecord records
          × ((compact_locked contents limit).0 ≡ serialize_records records))
compact_locked-cases contents limit v =
    elim (Bool-cases (leb (length (parse_records contents)) limit)) [
      | inl e ↦ inl (ap (λ x. x.0) (compact_short contents limit e))
      | inr e ↦ inr (
        retain_latest (parse_records contents) limit,
        retain_latest-IsRecord (parse_records contents) limit v,
        ap (λ x. x.0) (compact_long contents limit e),
      )
    ]

-- A history file without carriage returns, whatever else is in it: after the compaction to a limit
-- the file is read as the end of what it was read as before, with as many records as there were or
-- as the limit allows, whichever is less, and the number that is reported is theirs.
pub parse_records-compact_locked :
    (contents : Text) (limit : ℕ)
    → contains contents 13 ≡ false
    → IsLatest limit (parse_records contents) (parse_records (compact_locked contents limit).0)
      × ((compact_locked contents limit).1
          ≡ length (parse_records (compact_locked contents limit).0))
parse_records-compact_locked contents limit h =
    let valid = parse_records-IsRecord contents h in
    (
      compact_locked-IsLatest contents limit valid,
      compact_locked-count contents limit valid
          ∙ ap length (sym (compact_locked-retain_latest contents limit valid)),
    )
