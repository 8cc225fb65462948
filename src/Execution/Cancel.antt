-- ===== src/Execution/Cancel.antt =====
-- Cancellation, timeout and the end of a wait in src/execution.rs: methods of `ExecutionManager`,
-- and `escalate_cancellation`, which returns the executions whose job object is terminated.
use ion_win.Base.{
  ℕ, ◌/◌, Bool, true, false, not, ◌&&◌, Option, none, some, List, [], ◌∷◌, ◌++◌, Text, Result, ok,
  err, panic, if◌then◌else◌, codes,
}
use ion_win.Base.Map.{lookup, modify, contains_key}
use ion_win.Base.Decimal.{to_string}
use ion_win.Execution.Domain.{
  ExecutionMode, foreground, ExecutionState, cancelling, cancelled, timed_out, is_running,
  is_cancelling, ExecutionResult, Execution, ExecutionRecord, ExecutionError, not_found,
  invalid_transition,
}
use ion_win.Execution.Manager.{
  ExecutionManager, CancellationRequest, Outcome, transition, pids, cancel_token,
}

-- The signalling snapshot of one execution.
unfoldable pub snapshot_request : ℕ → ExecutionManager → Result ExecutionError CancellationRequest
snapshot_request id m = elim (lookup id m.active) [
  | none ↦ err (not_found id)
  | some e ↦ ok (record { execution_ids = id ∷ []; process_ids = pids e })
]

-- `transition(...)?` followed by the snapshot.
unfoldable pub then_snapshot : ℕ → Outcome (Option ExecutionRecord) → Outcome CancellationRequest
unfolding snapshot_request
then_snapshot id (m, ok _) = (m, snapshot_request id m)
then_snapshot id (m, err x) = (m, err x)
then_snapshot id (m, panic) = (m, panic)

unfoldable pub request_cancellation_found :
    (now id : ℕ) → Execution → ExecutionManager → Outcome CancellationRequest
unfolding then_snapshot
request_cancellation_found now id e m =
    if is_running e.state
    then then_snapshot id
        (transition now id cancelling none (record m { active = modify id cancel_token m.active }))
    else if not (is_cancelling e.state)
    then (m, err (invalid_transition e.state cancelling))
    else (m, snapshot_request id m)

unfoldable pub request_cancellation : (now id : ℕ) → ExecutionManager → Outcome CancellationRequest
request_cancellation now id m = elim (lookup id m.active) [
  | none ↦ (m, err (not_found id))
  | some e ↦ request_cancellation_found now id e m
]

abbrev pub trigger_timeout : Execution → Execution
trigger_timeout e = record (cancel_token e) { timeout_triggered = true }

unfoldable pub request_timeout_found :
    (now id : ℕ) → Execution → ExecutionManager → Outcome CancellationRequest
unfolding then_snapshot
request_timeout_found now id e m =
    if not (is_running e.state)
    then (m, err (invalid_transition e.state cancelling))
    else then_snapshot id (
        transition now id cancelling none
          (record m { active = modify id trigger_timeout m.active }))

unfoldable pub request_timeout : (now id : ℕ) → ExecutionManager → Outcome CancellationRequest
request_timeout now id m = elim (lookup id m.active) [
  | none ↦ (m, err (not_found id))
  | some e ↦ request_timeout_found now id e m
]

abbrev is_foreground : ExecutionMode → Bool
is_foreground foreground = true
is_foreground _ = false

-- The executions that a foreground interrupt reaches.
unfoldable pub foreground_ids : List (ℕ × Execution) → List ℕ
foreground_ids [] = []
foreground_ids ((id, e) ∷ rest) =
    if is_foreground e.spec.mode
    then if is_running e.state
      then id ∷ foreground_ids rest
      else if is_cancelling e.state
      then id ∷ foreground_ids rest
      else foreground_ids rest
    else foreground_ids rest

-- One round of the loop: a running execution starts cancelling; its result is dropped.
unfoldable pub cancel_one : (now id : ℕ) → ExecutionManager → ExecutionManager
cancel_one now id m = elim (lookup id m.active) [
  | none ↦ m
  | some e ↦
      if is_running e.state
      then (transition now id cancelling none
          (record m { active = modify id cancel_token m.active })).0
      else m
]

unfoldable pub add_request : ℕ → Option Execution → CancellationRequest → CancellationRequest
add_request id none request = request
add_request id (some e) request = record {
  execution_ids = request.execution_ids ++ id ∷ [];
  process_ids = request.process_ids ++ pids e;
}

unfoldable pub cancel_each :
    ℕ → List ℕ → ExecutionManager → CancellationRequest → ExecutionManager × CancellationRequest
cancel_each now [] m request = (m, request)
cancel_each now (id ∷ ids) m request =
    let m' = cancel_one now id m in
    cancel_each now ids m' (add_request id (lookup id m'.active) request)

unfoldable pub request_foreground_cancellation :
    ℕ → ExecutionManager → ExecutionManager × CancellationRequest
unfolding foreground_ids cancel_each cancel_one add_request
request_foreground_cancellation now m =
    cancel_each now (foreground_ids m.active) m (record { execution_ids = []; process_ids = [] })

unfoldable pub timed_out_message : Option ℕ → Text
timed_out_message none = codes "cancelled"
timed_out_message (some timeout) =
    codes "timed out after " ++ (to_string (timeout / 1_000_000) ++ codes " ms")

unfoldable pub finish_message : Execution → Text
unfolding timed_out_message
finish_message e =
    if e.timeout_triggered then timed_out_message e.spec.timeout else codes "cancelled"

unfoldable pub finish_after_wait :
    (now id : ℕ)
    → ExecutionState
    → ExecutionResult
    → ExecutionManager
    → Outcome (Option ExecutionRecord)
finish_after_wait now id natural_state natural_result m = elim (lookup id m.active) [
  | none ↦ transition now id natural_state (some natural_result) m
  | some e ↦
      if is_cancelling e.state
      then transition now id (if e.timeout_triggered then timed_out else cancelled)
          (some
            (record { exit_code = natural_result.exit_code; message = some (finish_message e) }))
          m
      else transition now id natural_state (some natural_result) m
]

abbrev terminates : ℕ → ExecutionManager → Bool
terminates id m = elim (lookup id m.active) [
  | none ↦ false
  | some e ↦ is_cancelling e.state && contains_key id m.job_objects
]

unfoldable pub escalate_cancellation : List ℕ → ExecutionManager → List ℕ
escalate_cancellation [] m = []
escalate_cancellation (id ∷ ids) m =
    if terminates id m then id ∷ escalate_cancellation ids m else escalate_cancellation ids m
