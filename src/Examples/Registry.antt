-- ===== src/Examples/Registry.antt =====
-- The registry of src/execution.rs at concrete inputs.
use ion_win.Base.{
  false, ℕ, ◌≤◌, ◌≡◌, refl, ◌≢◌, ◌↔◌, true, Option, none, some, [], ◌∷◌, arith, ok, err, panic,
  codes,
}
use ion_win.Base.Map.{lookup, insert, remove, modify}
use ion_win.Base.Decimal.{to_string}
use ion_win.Execution.Domain.{
  invalid_transition, can_transition_to, created, starting, running, cancelling, completed,
  cancelled, timed_out, is_terminal, ExecutionResult, Execution, ExecutionRecord, ExecutionError,
  new_spec, ExecutionSpec, new_context, ExecutionContext, pipeline, foreground,
}
use ion_win.Execution.Manager.{
  ExecutionManager, new, new_execution, create, transition, cancel_token, transition_found, enter,
  sanitize, push_history, trim, display_for,
}
use ion_win.Execution.Cancel.{
  request_cancellation, request_timeout, trigger_timeout, timed_out_message, finish_after_wait,
  finish_message, request_timeout_found, then_snapshot,
}
use ion_win.Execution.Invariant.{IsValid}
use ion_win.Execution.Invariant.Transition.{moved}
use ion_win.Execution.Fresh.{IsCreated, create_fresh}
use ion_win.Execution.Lifecycle.{Permitted}
use ion_win.Execution.Lifecycle.Bound.{Transitions, start, made, Transitions-bound}
use ion_win.Execution.Lifecycle.Outcomes.{
  transition_refusal, transition_accepts_iff, IsRetired, record_of, transition_retires,
}
use ion_win.Execution.Lifecycle.Interrupts.{
  request_interrupts, IsInterrupted, interrupted_result, interrupt_then_finish,
}
use ion_win.Execution.Reachability.{fresh, after, create_step, Reach-IsValid}

abbrev spec : ExecutionSpec
spec = record (new_spec (pipeline (codes "find | stat")) (codes "C:/") foreground) {
  timeout = some 2_000_000_000;
}

abbrev context : ExecutionContext
context = new_context (codes "C:/") []

-- A running execution with the id 1, in a registry that keeps two records.
abbrev job : Execution
job = record (new_execution 10 1 spec context) { state = running; started_at = some 12 }

abbrev busy : ExecutionManager
busy = record (new 2) { next_id = 2; active = (1, job) ∷ [] }

abbrev success : ExecutionResult
success = record { exit_code = none; message = none }

lookup-busy : lookup 1 busy.active ≡ some job
unfolding lookup
lookup-busy = refl

-- The steps that lead there.
busy_lem :
    (transition 12 1 running none
      (transition 11 1 starting none (create 10 spec context (new 2)).0).0).0
    ≡ busy
unfolding transition transition_found enter create lookup insert modify can_transition_to
    is_terminal
busy_lem = refl

-- A job that runs out of time ends as timed out, and leaves its record behind.
times_out :
    (finish_after_wait 30 1 completed success (request_timeout 20 1 busy).0).0.history
    ≡ record_of 30 timed_out
        (some (interrupted_result success (codes "timed out after 2000 ms")))
        (moved 20 cancelling (trigger_timeout job))
      ∷ []
unfolding finish_after_wait finish_message request_timeout request_timeout_found then_snapshot
    transition transition_found enter sanitize push_history trim display_for lookup insert remove
    modify can_transition_to is_terminal to_string
times_out = refl

Reach-IsValid_example : IsValid (create 10 spec context (new 2)).0
Reach-IsValid_example =
    Reach-IsValid 2 (create 10 spec context (new 2)).0 (after fresh (create_step 10 spec context))

-- Three transitions, from the creation on.
three :
    Transitions 1
      (create 10 spec context (new 2)).0
      3
      (transition 20 1 completed (some success) busy).0
unfolding transition transition_found enter create lookup insert modify can_transition_to
    is_terminal sanitize push_history remove trim display_for
three =
    made (made (made start 11 starting none none refl) 12 running none none refl) 20 completed
      (some success) (some (record_of 20 completed (some success) job)) refl

Transitions-bound_example :
    (3 ≤ 4) × (lookup 1 (create 10 spec context (new 2)).0.active ≡ none → ◌≡◌ {A = ℕ} 3 0)
Transitions-bound_example =
    Transitions-bound 1 3 (create 10 spec context (new 2)).0
      (transition 20 1 completed (some success) busy).0 three

transition_refusal_example :
    ((x : ExecutionError)
      → (transition 20 1 created none busy).1 ≡ err x
      → (transition 20 1 created none busy).0 ≡ busy)
    × ((transition 20 1 created none busy).1 ≢ panic)
transition_refusal_example = transition_refusal 20 1 created none busy

transition_accepts_iff_example :
    ((x : Option ExecutionRecord) × ((transition 20 1 completed (some success) busy).1 ≡ ok x))
    ↔ ((e : Execution) × (lookup 1 busy.active ≡ some e) × Permitted completed (some success) e)
transition_accepts_iff_example = transition_accepts_iff 20 1 completed (some success) busy

may_complete : Permitted completed (some success) job
unfolding can_transition_to is_terminal
may_complete = record { edge = refl; delivered = refl }

transition_retires_example :
    IsRetired 1
      (record_of 20 completed (some success) job)
      busy
      (transition 20 1 completed (some success) busy).0
unfolding is_terminal
transition_retires_example =
    transition_retires 20 1 completed (some success) job busy lookup-busy may_complete refl

request_interrupts_example :
    IsInterrupted 1 job false busy (request_cancellation 20 1 busy)
    × IsInterrupted 1 job true busy (request_timeout 20 1 busy)
    × (request_cancellation 25 1 (request_cancellation 20 1 busy).0
        ≡ request_cancellation 20 1 busy)
    × (request_timeout 25 1 (request_cancellation 20 1 busy).0
        ≡ ((request_cancellation 20 1 busy).0, err (invalid_transition cancelling cancelling)))
request_interrupts_example = request_interrupts 20 25 1 job busy lookup-busy refl

interrupt_then_finish_example :
    ((finish_after_wait 30 1 completed success (request_timeout 20 1 busy).0).1
      ≡ ok (
          some (
            record_of 30 timed_out
              (some (interrupted_result success (timed_out_message (some 2_000_000_000))))
              (moved 20 cancelling (trigger_timeout job)))))
    × ((finish_after_wait 30 1 completed success (request_cancellation 20 1 busy).0).1
        ≡ ok (
            some (
              record_of 30 cancelled
                (some (interrupted_result success (codes "cancelled")))
                (moved 20 cancelling (cancel_token job)))))
interrupt_then_finish_example =
    interrupt_then_finish 1 job busy lookup-busy refl (omega arith) 20 30 completed success refl

new-IsValid : IsValid (new 2)
new-IsValid = Reach-IsValid 2 (new 2) fresh

create_fresh_example : IsCreated 10 1 spec context (new 2) (create 10 spec context (new 2)).0
unfolding create
create_fresh_example = create_fresh 10 1 spec context (new 2) new-IsValid refl
