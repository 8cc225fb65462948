-- ===== src/Editor/Browse.antt =====
-- The history keys of src/editor.rs: Up goes to older entries and Down back to the line that was
-- being typed.
use ion_win.Base.{
  subst, ℕ, zero, suc, ◌+◌, ◌-◌, ◌≤◌, ◌<◌, ◌≡◌, refl, ◌∙◌, ap, inl, inr, true, false, some, List,
  [], ◌∷◌, Text, ◌==◌, ltb, ◌++◌, length, get_elem?, Bool-cases, Option-cases, arith,
}
use ion_win.Editor.Bounds.{Safe, slice-Safe}
use ion_win.Editor.Bounds.Moves.{get_elem?-Safe}
use ion_win.Editor.Actions.{
  Event, key, up, down, KeyModifiers, Host, Session, Editor, done, again, redraw, command_of,
}
use ion_win.Editor.Keys.{recalled, older_entry, newer_entry, waiting, run, resume, handle, perform}

-- The same key, pressed so many times.
unfoldable pub presses : Event → Host → ℕ → List (Host × Event)
presses event host zero = []
presses event host (suc n) = (host, event) ∷ presses event host n

run-append :
    (session : Session) (first second : List (Host × Event)) (s s' : Editor)
    → run session first s ≡ waiting s'
    → run session (first ++ second) s ≡ run session second s'
unfolding run
run-append session [] second s s' h = let same : s ≡ s' = cc h in ap (run session second) same
run-append session ((host, event) ∷ first) second s s' h =
    elim (Option-cases (handle session host event s)) [
      | inl e ↦ absurd (cc (e, h))
      | inr (done outcome, e) ↦ absurd (cc (e, h))
      | inr (again s1, e) ↦
          rw (run, e)
            (run-append session first second s1 s'
              (subst (λ o. resume first (λ s. run session first s) o ≡ waiting s') e h))
    ]

module _ (session : Session) where
  redraw_again :
      (s : Editor) → (s.line).cursor_pos ≤ length (s.line).buffer → redraw s ≡ some (again s)
  unfolding redraw
  redraw_again s h =
      let (before, e, _) = slice-Safe 0 (s.line).cursor_pos (s.line).buffer (omega arith) h in
      rw e refl

  -- The entry `i` is shown, and the line that was typed is kept.
  Shows : ℕ → Text → Editor → Type 0
  Shows i typed s =
      (s.history_index ≡ i)
      × (s.saved_current ≡ typed)
      × ((text : Text) × (get_elem? session.history i ≡ some text) × (s.line ≡ recalled text))

  Shows-cursor :
      (i : ℕ) (typed : Text) (s : Editor)
      → Shows i typed s
      → (s.line).cursor_pos ≤ length (s.line).buffer
  unfolding Shows
  Shows-cursor i typed s (_, _, (text, _, e)) = rw e (omega arith)

  abbrev restored : Text → Editor
  restored typed = record {
    line = recalled typed;
    history_index = length session.history;
    saved_current = typed;
  }

  older_entry-first :
      (s : Editor) (i : ℕ)
      → s.history_index ≡ suc i
      → suc i ≡ length session.history
      → Safe (older_entry session s) (Shows i (s.line).buffer)
  unfolding older_entry Shows
  older_entry-first s i e last =
      let (text, found, _) = get_elem?-Safe session.history i (omega (arith, last)) in
      let at_end : (suc i == length session.history) ≡ true = ground (arith, last) in
      rw (older_entry, e, found, at_end) (_, refl, (refl, refl, (text, refl, refl)))

  older_entry-Shows :
      (i : ℕ) (typed : Text) (s : Editor)
      → suc i < length session.history
      → Shows (suc i) typed s
      → Safe (older_entry session s) (Shows i typed)
  unfolding older_entry Shows
  older_entry-Shows i typed s below (e, kept, _) =
      let (text, found, _) = get_elem?-Safe session.history i (omega (arith, below)) in
      let inside : (suc i == length session.history) ≡ false = ground (arith, below) in
      rw (older_entry, e, found, inside) (_, refl, (refl, kept, (text, refl, refl)))

  older_entry-oldest : (s : Editor) → s.history_index ≡ 0 → older_entry session s ≡ some s
  unfolding older_entry
  older_entry-oldest s e = simp (older_entry, e)

  newer_entry-newest : (typed : Text) → newer_entry session (restored typed) ≡ some (restored typed)
  unfolding newer_entry
  newer_entry-newest typed =
      let outside : ltb (length session.history) (length session.history) ≡ false = ground arith in
      rw outside refl

  newer_entry-last :
      (i : ℕ) (typed : Text) (s : Editor)
      → suc i ≡ length session.history
      → Shows i typed s
      → newer_entry session s ≡ some (restored typed)
  unfolding newer_entry Shows
  newer_entry-last i typed s last (e, kept, _) =
      let inside : ltb i (length session.history) ≡ true = ground (arith, last) in
      let at_end : (i + 1 == length session.history) ≡ true = ground (arith, last) in
      rw (e, inside, at_end, kept)
        (ap (λ n. some (record { line = recalled typed; history_index = n; saved_current = typed }))
          (omega (arith, last)))

  newer_entry-Shows :
      (i : ℕ) (typed : Text) (s : Editor)
      → suc i < length session.history
      → Shows i typed s
      → Safe (newer_entry session s) (Shows (suc i) typed)
  unfolding newer_entry Shows
  newer_entry-Shows i typed s below (e, kept, _) =
      let (text, found, _) = get_elem?-Safe session.history (i + 1) (omega (arith, below)) in
      let inside : ltb i (length session.history) ≡ true = ground (arith, below) in
      let before : (i + 1 == length session.history) ≡ false = ground (arith, below) in
      rw (e, inside, before, found)
        (
          _,
          refl,
          (
            omega arith,
            kept,
            (text, subst (λ n. get_elem? session.history n ≡ some text) (omega arith) found, refl),
          ),
        )

  module _ (host : Host) (m : KeyModifiers) where
    abbrev up_key : Event
    up_key = key up m false

    abbrev down_key : Event
    down_key = key down m false

    run-up :
        (events : List (Host × Event)) (s s' : Editor)
        → older_entry session s ≡ some s'
        → (s'.line).cursor_pos ≤ length (s'.line).buffer
        → run session ((host, up_key) ∷ events) s ≡ run session events s'
    unfolding run handle command_of perform
    run-up events s s' e h = rw (e, redraw_again s' h) refl

    run-down :
        (events : List (Host × Event)) (s s' : Editor)
        → newer_entry session s ≡ some s'
        → (s'.line).cursor_pos ≤ length (s'.line).buffer
        → run session ((host, down_key) ∷ events) s ≡ run session events s'
    unfolding run handle command_of perform
    run-down events s s' e h = rw (e, redraw_again s' h) refl

    abbrev Climbed : ℕ → ℕ → Text → Editor → Type 0
    Climbed k i typed s' = (j : ℕ) × (i ≤ j + k) × (j < length session.history) × Shows j typed s'

    -- Up, pressed `k` times, shows an entry at most `k` places before.
    run-ups :
        (k i : ℕ) (typed : Text) (s : Editor)
        → i < length session.history
        → Shows i typed s
        → (s' : Editor) × (run session (presses up_key host k) s ≡ waiting s')
          × Climbed k i typed s'
    unfolding presses run older_entry Shows
    run-ups zero i typed s below shown = (s, refl, (i, omega arith, below, shown))
    run-ups (suc k) zero typed s below shown =
        let stays : older_entry session s ≡ some s = older_entry-oldest s shown.0 in
        let (s', e, (j, near, within, shown')) = run-ups k zero typed s below shown in
        (
          s',
          run-up (presses up_key host k) s s stays (Shows-cursor zero typed s shown) ∙ e,
          (j, omega (arith, near), within, shown'),
        )
    run-ups (suc k) (suc i) typed s below shown =
        let (s1, older, shown1) = older_entry-Shows i typed s below shown in
        let (s', e, (j, near, within, shown')) =
          run-ups k i typed s1 (omega (arith, below)) shown1 in
        (
          s',
          run-up (presses up_key host k) s s1 older (Shows-cursor i typed s1 shown1) ∙ e,
          (j, omega (arith, near), within, shown'),
        )

    run-restored :
        (k : ℕ) (typed : Text)
        → run session (presses down_key host k) (restored typed) ≡ waiting (restored typed)
    unfolding presses run newer_entry
    run-restored zero typed = refl
    run-restored (suc k) typed =
        run-down (presses down_key host k) (restored typed) (restored typed)
          (newer_entry-newest typed) (omega arith)
        ∙ run-restored k typed

    -- Down, pressed often enough, comes back to the line that was typed.
    run-downs :
        (k i : ℕ) (typed : Text) (s : Editor)
        → i < length session.history
        → length session.history ≤ i + k
        → Shows i typed s
        → run session (presses down_key host k) s ≡ waiting (restored typed)
    unfolding presses
    run-downs zero i typed s below enough shown = absurd (omega (arith, below, enough))
    run-downs (suc k) i typed s below enough shown =
        elim (Bool-cases (suc i == length session.history)) [
          | inl last ↦
              run-down (presses down_key host k) s (restored typed)
                (newer_entry-last i typed s (ground arith) shown) (omega arith)
              ∙ run-restored k typed
          | inr before ↦
              let (s1, newer, shown1) = newer_entry-Shows i typed s (ground arith) shown in
              run-down (presses down_key host k) s s1 newer (Shows-cursor (suc i) typed s1 shown1)
              ∙ run-downs k (suc i) typed s1 (ground arith) (omega (arith, enough)) shown1
        ]

-- A line of at least one entry of history that is not being browsed: Up pressed any number of
-- times, more often than there are entries included, and then Down as many times, give back the
-- line that was being typed, with the cursor at its end.
pub run-restores :
    (session : Session) (host : Host) (m : KeyModifiers) (s : Editor) (k : ℕ)
    → 0 < length session.history
    → s.history_index ≡ length session.history
    → run session
        (presses (key up m false) host (suc k) ++ presses (key down m false) host (suc k))
        s
      ≡ waiting (record {
        line = recalled (s.line).buffer;
        history_index = length session.history;
        saved_current = (s.line).buffer;
      })
unfolding presses
run-restores session host m s k some_entry newest =
    let typed : Text = (s.line).buffer in
    let i : ℕ = length session.history - 1 in
    let (s1, older, shown) =
      older_entry-first session s i (omega (arith, some_entry, newest))
        (omega (arith, some_entry)) in
    let (s2, climbed, (j, near, within, shown2)) =
      run-ups session host m k i typed s1 (omega (arith, some_entry)) shown in
    run-append session (presses (key up m false) host (suc k))
      (presses (key down m false) host (suc k)) s s2
      (run-up session host m (presses (key up m false) host k) s s1 older
          (Shows-cursor session i typed s1 shown)
        ∙ climbed)
    ∙ run-downs session host m (suc k) j typed s2 within (omega (arith, near, some_entry)) shown2
