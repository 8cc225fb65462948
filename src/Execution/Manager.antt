-- ===== src/Execution/Manager.antt =====
-- The registry of src/execution.rs (`ExecutionManager`): creation, the guarded transition with
-- its bounded history, cancellation and timeout requests, and the end of a wait. A method takes
-- the registry and returns the new one with its result; `now` is what the clock reads in the call.
use ion_win.Base.{
  ℕ, ◌+◌, ◌^◌, true, false, not, ◌&&◌, Option, none, some, List, [], ◌∷◌, ◌++◌, map, Text, Result,
  ok, err, panic, ltb, if◌then◌else◌, length, codes, is_some, join,
}
use ion_win.Base.Map.{lookup, insert, remove, modify}
use ion_win.Execution.Domain.{
  ExecutionTarget, external, pipeline, builtin, ExecutionSpec, ExecutionContext, ExecutionState,
  created, is_terminal, can_transition_to, is_running, ExecutionResult, Execution, ExecutionRecord,
  ExecutionError, id_exhausted, not_found, invalid_transition, terminal_result_required,
  result_before_terminal,
}

-- A child process handle that the registry owns, by its pid, and the command that it runs.
pub record ManagedChild : Type 0 where
  pub child : ℕ
  pub command : Text

-- `job_objects` has an entry for each execution that owns a Windows job object.
pub record ExecutionManager : Type 0 where
  pub next_id : ℕ
  pub active : List (ℕ × Execution)
  pub history : List ExecutionRecord
  pub history_limit : ℕ
  pub background_children : List (ℕ × List ManagedChild)
  pub job_objects : List (ℕ × Unit {0})

pub record CancellationRequest : Type 0 where
  pub execution_ids : List ℕ
  pub process_ids : List ℕ

abbrev pub Outcome : Type 0 → Type 0
Outcome A = ExecutionManager × Result ExecutionError A

abbrev pub new : ℕ → ExecutionManager
new history_limit = record {
  next_id = 1;
  active = [];
  history = [];
  history_limit = history_limit;
  background_children = [];
  job_objects = [];
}

abbrev pub new_execution : (now id : ℕ) → ExecutionSpec → ExecutionContext → Execution
new_execution now id spec context = record {
  id = id;
  spec = spec;
  context = context;
  state = created;
  created_at = now;
  started_at = none;
  finished_at = none;
  root_pid = none;
  processes = [];
  result = none;
  timeout_triggered = false;
}

-- `checked_add` on the 64-bit counter; the last id is never handed out.
unfoldable pub create : (now : ℕ) → ExecutionSpec → ExecutionContext → ExecutionManager → Outcome ℕ
create now spec context m =
    let id = m.next_id in
    if ltb (id + 1) (2 ^ 64)
    then (
      record m {
        next_id = id + 1;
        active = insert id (new_execution now id spec context) m.active;
      },
      ok id,
    )
    else (m, err id_exhausted)

unfoldable pub display_target : ExecutionTarget → Text
display_target (external program args) = join (codes " ") (program ∷ args)
display_target (pipeline display) = display
display_target (builtin name args) = join (codes " ") (name ∷ args)

unfoldable pub display_for : Execution → Text
display_for e = display_target e.spec.target

-- `none` stands for the panic of `expect` on a missing finish time.
unfoldable pub sanitize : Execution → Option ExecutionRecord
sanitize e = elim e.finished_at [
  | none ↦ none
  | some at ↦ some (record {
    id = e.id;
    display = display_for e;
    state = e.state;
    created_at = e.created_at;
    started_at = e.started_at;
    finished_at = at;
    root_pid = e.root_pid;
    processes = e.processes;
    result = e.result;
  })
]

-- `pop_front` while there are more records than the limit.
unfoldable pub trim : ℕ → List ExecutionRecord → List ExecutionRecord
trim limit [] = []
trim limit (r ∷ rs) = if ltb limit (length (r ∷ rs)) then trim limit rs else r ∷ rs

-- The end of `transition` for a terminal state, after the execution left the active map.
unfoldable pub push_history :
    Option ExecutionRecord → ExecutionManager → Outcome (Option ExecutionRecord)
push_history none m = (m, panic)
push_history (some r) m =
    if ltb 0 m.history_limit
    then (record m { history = trim m.history_limit (m.history ++ r ∷ []) }, ok (some r))
    else (m, ok none)

-- The writes of `transition`, once its three guards have passed.
unfoldable pub enter :
    (now id : ℕ)
    → ExecutionState
    → Option ExecutionResult
    → Execution
    → ExecutionManager
    → Outcome (Option ExecutionRecord)
enter now id next result e m =
    let moved = record e {
      state = next;
      started_at = if is_running next then some now else e.started_at;
    } in
    let finished = record moved { finished_at = some now; result = result } in
    if is_terminal next
    then push_history (sanitize finished)
        (record m { active = remove id m.active; job_objects = remove id m.job_objects })
    else (record m { active = modify id (λ _. moved) m.active }, ok none)

unfoldable pub transition_found :
    (now id : ℕ)
    → ExecutionState
    → Option ExecutionResult
    → Execution
    → ExecutionManager
    → Outcome (Option ExecutionRecord)
transition_found now id next result e m =
    if not (can_transition_to e.state next)
    then (m, err (invalid_transition e.state next))
    else if is_terminal next && not (is_some result)
    then (m, err (terminal_result_required next))
    else if not (is_terminal next) && is_some result
    then (m, err (result_before_terminal next))
    else enter now id next result e m

unfoldable pub transition :
    (now id : ℕ)
    → ExecutionState
    → Option ExecutionResult
    → ExecutionManager
    → Outcome (Option ExecutionRecord)
transition now id next result m = elim (lookup id m.active) [
  | none ↦ (m, err (not_found id))
  | some e ↦ transition_found now id next result e m
]

abbrev pub pids : Execution → List ℕ
pids e = map (λ p. p.pid) e.processes

-- What `context.cancellation.cancel()` writes.
abbrev pub cancel_token : Execution → Execution
cancel_token e = record e { context = record (e.context) { cancellation = true } }
