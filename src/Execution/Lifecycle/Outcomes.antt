-- ===== src/Execution/Lifecycle/Outcomes.antt =====
-- What one call of `transition` in src/execution.rs answers and writes, on each of its branches.
use ion_win.Base.{
  ==_refl, List, ℕ, ◌+◌, ◌-◌, ◌<◌, ◌≡◌, refl, sym, ◌∙◌, ap, ◌≢◌, ◌↔◌, ◌⊎◌, inl, inr, true, false,
  Option, none, some, [], ◌∷◌, ◌++◌, arith, ok, err, panic, is_some, ltb, lt→ltb, length-append,
  if◌then◌else◌, Bool-cases, Option-cases, length, drop,
}
use ion_win.Base.Map.{lookup-modify, lookup, remove, modify, lookup-remove}
use ion_win.Execution.Domain.{
  ExecutionState, is_terminal, can_transition_to, ExecutionResult, Execution, ExecutionRecord,
  ExecutionError, not_found, invalid_transition, terminal_result_required, result_before_terminal,
}
use ion_win.Execution.Manager.{
  ExecutionManager, Outcome, display_for, sanitize, push_history, enter, transition_found,
  transition, trim,
}
use ion_win.Execution.Invariant.{trim_lem}
use ion_win.Execution.Invariant.Transition.{moved}
use ion_win.Execution.Lifecycle.{Permitted}

-- The record that an execution leaves when it enters a terminal state.
abbrev pub record_of : ℕ → ExecutionState → Option ExecutionResult → Execution → ExecutionRecord
record_of now next result e = record {
  id = e.id;
  display = display_for e;
  state = next;
  created_at = e.created_at;
  started_at = (moved now next e).started_at;
  finished_at = now;
  root_pid = e.root_pid;
  processes = e.processes;
  result = result;
}

-- The registry after an execution entered a terminal state.
abbrev pub retired : ℕ → ExecutionRecord → ExecutionManager → ExecutionManager
retired id r m = record m {
  active = remove id m.active;
  job_objects = remove id m.job_objects;
  history = if ltb 0 m.history_limit then trim m.history_limit (m.history ++ r ∷ []) else m.history;
}

abbrev pub returned : ExecutionRecord → ExecutionManager → Option ExecutionRecord
returned r m = if ltb 0 m.history_limit then some r else none

pub lookup-modify_found :
    (id : ℕ) (f : Execution → Execution) (e : Execution) (active : List (ℕ × Execution))
    → lookup id active ≡ some e
    → lookup id (modify id f active) ≡ some (f e)
lookup-modify_found id f e active found = rw (lookup-modify, ==_refl, found)

pub enter-terminal :
    (now id : ℕ) (next : ExecutionState) (result : Option ExecutionResult) (e : Execution)
    (m : ExecutionManager)
    → is_terminal next ≡ true
    → enter now id next result e m
      ≡ (retired id (record_of now next result e) m, ok (returned (record_of now next result e) m))
unfolding enter sanitize push_history remove trim display_for
enter-terminal now id next result e m over = elim (Bool-cases (ltb 0 m.history_limit)) [
  | inl kept ↦ rw (over, kept, push_history)
  | inr dropped ↦ rw (over, dropped, push_history)
]

pub enter-going :
    (now id : ℕ) (next : ExecutionState) (result : Option ExecutionResult) (e : Execution)
    (m : ExecutionManager)
    → is_terminal next ≡ false
    → enter now id next result e m
      ≡ (record m { active = modify id (λ _. moved now next e) m.active }, ok none)
unfolding enter
enter-going now id next result e m going = rw going

abbrev Refused : ExecutionManager → Outcome (Option ExecutionRecord) → Type 0
Refused m o = (x : ExecutionError) × (o ≡ (m, err x))

transition_found-cases :
    (now id : ℕ) (next : ExecutionState) (result : Option ExecutionResult) (e : Execution)
    (m : ExecutionManager)
    → Refused m (transition_found now id next result e m)
      ⊎ (Permitted next result e
          × (transition_found now id next result e m ≡ enter now id next result e m))
unfolding transition_found
transition_found-cases now id next result e m = elim (Bool-cases (can_transition_to e.state next)) [
  | inr no_edge ↦ inl (invalid_transition e.state next, rw no_edge)
  | inl edge ↦ elim (Bool-cases (is_terminal next)) [
    | inl t ↦ elim (Bool-cases (is_some result)) [
      | inl r ↦ inr (record { edge = edge; delivered = r ∙ sym t }, rw (edge, t, r))
      | inr r ↦ inl (terminal_result_required next, rw (edge, t, r))
    ]
    | inr t ↦ elim (Bool-cases (is_some result)) [
      | inl r ↦ inl (result_before_terminal next, rw (edge, t, r))
      | inr r ↦ inr (record { edge = edge; delivered = r ∙ sym t }, rw (edge, t, r))
    ]
  ]
]

transition-cases :
    (now id : ℕ) (next : ExecutionState) (result : Option ExecutionResult) (m : ExecutionManager)
    → Refused m (transition now id next result m)
      ⊎ ((e : Execution) × (lookup id m.active ≡ some e)
          × Permitted next result e
          × (transition now id next result m ≡ enter now id next result e m))
unfolding transition
transition-cases now id next result m = elim (Option-cases (lookup id m.active)) [
  | inl absent ↦ inl (not_found id, rw (absent, transition))
  | inr (e, found) ↦ elim (transition_found-cases now id next result e m) [
    | inl (x, refused) ↦ inl (x, rw (found, transition) refused)
    | inr (p, made) ↦ inr (e, found, p, rw (found, transition) made)
  ]
]

-- With the guards met the writes are made.
pub transition-Permitted :
    (now id : ℕ) (next : ExecutionState) (result : Option ExecutionResult) (e : Execution)
    (m : ExecutionManager)
    → lookup id m.active ≡ some e
    → Permitted next result e
    → transition now id next result m ≡ enter now id next result e m
unfolding transition transition_found
transition-Permitted now id next result e m found p = elim (Bool-cases (is_terminal next)) [
  | inl t ↦ rw (found, transition, p.edge, p.delivered, t)
  | inr t ↦ rw (found, transition, p.edge, p.delivered, t)
]

enter-ok :
    (now id : ℕ) (next : ExecutionState) (result : Option ExecutionResult) (e : Execution)
    (m : ExecutionManager)
    → (x : Option ExecutionRecord) × ((enter now id next result e m).1 ≡ ok x)
enter-ok now id next result e m = elim (Bool-cases (is_terminal next)) [
  | inl over ↦ (
    returned (record_of now next result e) m,
    ap (λ o. o.1) (enter-terminal now id next result e m over),
  )
  | inr going ↦ (none, ap (λ o. o.1) (enter-going now id next result e m going))
]

-- A transition that answers an error leaves the whole registry as it was, and no transition panics.
pub transition_refusal :
    (now id : ℕ) (next : ExecutionState) (result : Option ExecutionResult) (m : ExecutionManager)
    → ((x : ExecutionError)
        → (transition now id next result m).1 ≡ err x
        → (transition now id next result m).0 ≡ m)
      × ((transition now id next result m).1 ≢ panic)
transition_refusal now id next result m = elim (transition-cases now id next result m) [
  | inl (x, refused) ↦ (λ y h. ap (λ o. o.0) refused, λ h. cc)
  | inr (e, found, p, made) ↦
      let (x, answer) = enter-ok now id next result e m in (λ y h. cc, λ h. cc)
]

-- A transition succeeds exactly when the execution is active, the edge is one of the state
-- machine's, and a result comes with a terminal state and with no other.
pub transition_accepts_iff :
    (now id : ℕ) (next : ExecutionState) (result : Option ExecutionResult) (m : ExecutionManager)
    → ((x : Option ExecutionRecord) × ((transition now id next result m).1 ≡ ok x))
      ↔ ((e : Execution) × (lookup id m.active ≡ some e) × Permitted next result e)
transition_accepts_iff now id next result m = (
  λ h. elim (transition-cases now id next result m) [
    | inl (x, refused) ↦ absurd (cc (ap (λ o. o.1) refused, h.1))
    | inr (e, found, p, made) ↦ (e, found, p)
  ],
  λ (e, found, p).
      let (x, answer) = enter-ok now id next result e m in
      (x, ap (λ o. o.1) (transition-Permitted now id next result e m found p) ∙ answer),
)

-- What holds of the registry once an execution has entered a terminal state.
pub record IsRetired (id : ℕ) (r : ExecutionRecord) (m m' : ExecutionManager) : Type 0 where
  pub gone : lookup id m'.active ≡ none
  pub job_gone : lookup id m'.job_objects ≡ none
  pub others : (j : ℕ) → j ≢ id → lookup j m'.active ≡ lookup j m.active
  pub remembered :
      0 < m.history_limit
      → m'.history ≡ drop (length m.history + 1 - m.history_limit) (m.history ++ r ∷ [])
  pub forgotten : m.history_limit ≡ 0 → m'.history ≡ m.history
  pub counter : m'.next_id ≡ m.next_id

-- A permitted transition of an active execution to a terminal state takes the execution and its
-- job object out and leaves every other execution and the counter as they are. If the registry
-- keeps records, the record is the newest of the history, and the oldest go beyond the limit;
-- otherwise the history is as it was.
pub transition_retires :
    (now id : ℕ) (next : ExecutionState) (result : Option ExecutionResult) (e : Execution)
    (m : ExecutionManager)
    → lookup id m.active ≡ some e
    → Permitted next result e
    → is_terminal next ≡ true
    → IsRetired id (record_of now next result e) m (transition now id next result m).0
transition_retires now id next result e m found p over =
    rw
      (
        transition-Permitted now id next result e m found p,
        enter-terminal now id next result e m over,
      )
      (record {
        gone = rw lookup-remove (ground arith);
        job_gone = rw lookup-remove (ground arith);
        others = λ j other. rw lookup-remove (ground arith);
        remembered = λ h. rw (lt→ltb _ _ h, trim_lem, length-append) (refl);
        forgotten = λ h. rw h;
        counter = refl;
      })
