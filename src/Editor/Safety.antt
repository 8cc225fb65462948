-- ===== src/Editor/Safety.antt =====
-- Runs of the loop of `run_editor` in src/editor.rs: whatever the events are, a line that is
-- still being read is in bounds, and only the Tab key may panic.
use ion_win.Base.{
  ◌⊎◌, ◌&&◌, subst, ℕ, ◌≡◌, refl, ◌≢◌, inl, inr, Bool, true, false, Option, none, some, List, [],
  ◌∷◌, if◌then◌else◌, ◌==◌, All, Bool-cases, arith,
}
use ion_win.Editor.Buffer.{◌>>=◌, single_line_clipboard_text}
use ion_win.Editor.Bounds.{Cuts, Safe, insert_text-Safe}
use ion_win.Editor.Invariant.Commands.{tab_line-InBounds, >>=-some}
use ion_win.Editor.Invariant.{
  IsValid, GoesOn, redraw-Safe, with_line-Safe, empty_line-InBounds, perform-Safe,
}
use ion_win.Editor.Actions.{
  KeyCode, char, enter, esc, tab, backspace, delete, left, right, home, end, up, down, other,
  KeyModifiers, Event, key, paste, ignored, read_error, Host, Session, Editor, Reply, again, done,
  eof, fresh, redraw, with_line, complete_tab, command_of, control_command, line_command, tab_line,
}
use ion_win.Editor.Keys.{resume, perform, handle, Run, crashed, waiting, run, run_editor}

abbrev pub NoTab : Event → Type 0
NoTab (key code m release) = code ≢ tab
NoTab _ = Unit

code_cases : (code : KeyCode) → (code ≢ tab) ⊎ (code ≡ tab)
code_cases tab = inr refl
code_cases code = inl (λ e. absurd (cc e))

tab_cases :
    (event : Event)
    → NoTab event ⊎ ((m : KeyModifiers) × (release : Bool) × (event ≡ key tab m release))
tab_cases (key code m release) = elim (code_cases code) [
  | inl n ↦ inl n
  | inr e ↦ inr (m, release, rw e refl)
]
tab_cases (paste text) = inl tt
tab_cases ignored = inl tt
tab_cases read_error = inl tt

if-apart : {A : Type 0} (b : Bool) (x y z : A) → x ≢ z → y ≢ z → (if b then x else y) ≢ z
if-apart true x y z n m = n
if-apart false x y z n m = m

control_command-apart : (c : ℕ) → control_command c ≢ complete_tab
unfolding control_command
control_command-apart c =
    if-apart (c == 99) _ _ _ (λ e. absurd (cc e))
      (if-apart (c == 120) _ _ _ (λ e. absurd (cc e))
        (if-apart (c == 118) _ _ _ (λ e. absurd (cc e))
          (if-apart (c == 100) _ _ _ (λ e. absurd (cc e))
            (if-apart (c == 117) _ _ _ (λ e. absurd (cc e))
              (if-apart (c == 107) _ _ _ (λ e. absurd (cc e))
                (if-apart (c == 119) _ _ _ (λ e. absurd (cc e)) (λ e. absurd (cc e))))))))

command_of-apart :
    (code : KeyCode) (m : KeyModifiers) → code ≢ tab → command_of code m ≢ complete_tab
unfolding command_of
command_of-apart tab m n = absurd (n refl)
command_of-apart enter m n = λ e. absurd (cc e)
command_of-apart (char c) m n =
    if-apart m.control _ _ _ (control_command-apart c)
      (if-apart m.alt _ _ _ (λ e. absurd (cc e)) (λ e. absurd (cc e)))
command_of-apart esc m n = λ e. absurd (cc e)
command_of-apart backspace m n = if-apart m.alt _ _ _ (λ e. absurd (cc e)) (λ e. absurd (cc e))
command_of-apart delete m n = λ e. absurd (cc e)
command_of-apart left m n =
    if-apart (m.control && m.shift) _ _ _ (λ e. absurd (cc e))
      (if-apart m.control _ _ _ (λ e. absurd (cc e))
        (if-apart m.shift _ _ _ (λ e. absurd (cc e)) (λ e. absurd (cc e))))
command_of-apart right m n =
    if-apart (m.control && m.shift) _ _ _ (λ e. absurd (cc e))
      (if-apart m.control _ _ _ (λ e. absurd (cc e))
        (if-apart m.shift _ _ _ (λ e. absurd (cc e)) (λ e. absurd (cc e))))
command_of-apart home m n = if-apart m.shift _ _ _ (λ e. absurd (cc e)) (λ e. absurd (cc e))
command_of-apart end m n = if-apart m.shift _ _ _ (λ e. absurd (cc e)) (λ e. absurd (cc e))
command_of-apart up m n = λ e. absurd (cc e)
command_of-apart down m n = λ e. absurd (cc e)
command_of-apart other m n = λ e. absurd (cc e)

module _ (session : Session) (cuts : Cuts session.seg) where
  handle-Safe :
      (host : Host) (event : Event) (s : Editor)
      → NoTab event
      → IsValid session s
      → Safe (handle session host event s) (GoesOn session)
  unfolding handle
  handle-Safe host (key code m release) s n v = elim (Bool-cases release) [
    | inl e ↦ rw e (again s, refl, v)
    | inr e ↦
        rw e (perform-Safe session cuts host (command_of code m) s (command_of-apart code m n) v)
  ]
  handle-Safe host (paste text) s n v =
      with_line-Safe session s _ v.index
        (insert_text-Safe (single_line_clipboard_text text) s.line v.line)
  handle-Safe host ignored s n v = (again s, refl, v)
  handle-Safe host read_error s n v = (done eof, refl, tt)

  tab-GoesOn :
      (host : Host) (m : KeyModifiers) (release : Bool) (s : Editor) (reply : Reply)
      → IsValid session s
      → handle session host (key tab m release) s ≡ some reply
      → GoesOn session reply
  unfolding handle command_of perform line_command
  tab-GoesOn host m release s reply v h = elim (Bool-cases release) [
    | inl e ↦ let same : again s ≡ reply = cc (e, h) in subst (GoesOn session) same v
    | inr e ↦
        let (l, f, g) =
          >>=-some (tab_line host s.line) (λ l. redraw (with_line s l)) reply
            (subst
              (λ b.
                (if b
                  then some (again s)
                  else (tab_line host s.line >>= λ l. redraw (with_line s l)))
                ≡ some reply)
              e h) in
        let (reply', drawn, v') =
          redraw-Safe session (with_line s l)
            (record { line = tab_line-InBounds host s.line l v.line f; index = v.index }) in
        let same : reply' ≡ reply = cc (drawn, g) in subst (GoesOn session) same v'
  ]

  handle-GoesOn :
      (host : Host) (event : Event) (s : Editor) (reply : Reply)
      → IsValid session s
      → handle session host event s ≡ some reply
      → GoesOn session reply
  handle-GoesOn host event s reply v h = elim (tab_cases event) [
    | inl n ↦
        let (reply', e, v') = handle-Safe host event s n v in
        let same : reply' ≡ reply = cc (e, h) in subst (GoesOn session) same v'
    | inr (m, release, e) ↦
        tab-GoesOn host m release s reply v
          (subst (λ event. handle session host event s ≡ some reply) e h)
  ]

  fresh-IsValid : IsValid session (fresh session)
  fresh-IsValid = record { line = empty_line-InBounds; index = omega arith }

  resume-NoTab :
      (events : List (Host × Event)) (next : Editor → Run) (reply : Reply)
      → ((s : Editor) → IsValid session s → next s ≢ crashed)
      → GoesOn session reply
      → resume events next (some reply) ≢ crashed
  resume-NoTab events next (done outcome) h v = λ e. absurd (cc e)
  resume-NoTab events next (again s) h v = h s v

  run-NoTab :
      (events : List (Host × Event)) (s : Editor)
      → All (λ e. NoTab e.1) events
      → IsValid session s
      → run session events s ≢ crashed
  unfolding run
  run-NoTab [] s n v = λ e. absurd (cc e)
  run-NoTab ((host, event) ∷ events) s (n, ns) v =
      let (reply, e, v') = handle-Safe host event s n v in
      rw (run, e)
        (resume-NoTab events (λ s. run session events s) reply (λ s v. run-NoTab events s ns v) v')

  resume-IsValid :
      (events : List (Host × Event)) (next : Editor → Run) (reply : Option Reply) (s' : Editor)
      → ((s : Editor) → IsValid session s → next s ≡ waiting s' → IsValid session s')
      → ((r : Reply) → reply ≡ some r → GoesOn session r)
      → resume events next reply ≡ waiting s'
      → IsValid session s'
  resume-IsValid events next none s' h v e = absurd (cc e)
  resume-IsValid events next (some (done outcome)) s' h v e = absurd (cc e)
  resume-IsValid events next (some (again s)) s' h v e = h s (v (again s) refl) e

  run-IsValid :
      (events : List (Host × Event)) (s s' : Editor)
      → IsValid session s
      → run session events s ≡ waiting s'
      → IsValid session s'
  unfolding run
  run-IsValid [] s s' v h = let same : s ≡ s' = cc h in subst (IsValid session) same v
  run-IsValid ((host, event) ∷ events) s s' v h =
      resume-IsValid events (λ s. run session events s) (handle session host event s) s'
        (λ s v h. run-IsValid events s s' v h) (λ reply e. handle-GoesOn host event s reply v e) h

-- A session in which grapheme clusters lie within their text: as long as the Tab key is not
-- pressed, no sequence of events makes the line editor panic.
pub run_editor-NoTab :
    (session : Session) (events : List (Host × Event))
    → Cuts session.seg
    → All (λ e. NoTab e.1) events
    → run_editor session events ≢ crashed
unfolding run_editor redraw
run_editor-NoTab session events cuts n =
    run-NoTab session cuts events (fresh session) n (fresh-IsValid session cuts)

-- A session in which grapheme clusters lie within their text: whatever the events are, Tab
-- included, while the line is being read the cursor and the anchor of the selection are places of
-- the buffer and the history index is at most the number of entries.
pub run_editor-IsValid :
    (session : Session) (events : List (Host × Event)) (s : Editor)
    → Cuts session.seg
    → run_editor session events ≡ waiting s
    → IsValid session s
unfolding run_editor redraw
run_editor-IsValid session events s cuts h =
    run-IsValid session cuts events (fresh session) s (fresh-IsValid session cuts) h
