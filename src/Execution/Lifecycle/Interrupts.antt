-- ===== src/Execution/Lifecycle/Interrupts.antt =====
-- Cancellation and timeout of a running execution in src/execution.rs, up to the end of its wait.
use ion_win.Base.{
  map, err, ◌≢◌, Bool, ℕ, ◌<◌, ◌≡◌, refl, sym, ◌∙◌, ap, true, false, Option, none, some, [], ◌∷◌,
  arith, ok, lt→ltb, if◌then◌else◌, Text, codes,
}
use ion_win.Base.Map.{lookup, modify, lookup-modify}
use ion_win.Execution.Domain.{
  invalid_transition, ExecutionState, running, cancelling, cancelled, timed_out, is_terminal,
  can_transition_to, is_cancelling, ExecutionResult, Execution,
}
use ion_win.Execution.Manager.{
  Outcome, ExecutionManager, CancellationRequest, transition, pids, cancel_token,
}
use ion_win.Execution.Cancel.{
  snapshot_request, then_snapshot, request_cancellation_found, request_cancellation,
  trigger_timeout, request_timeout_found, request_timeout, timed_out_message, finish_message,
  finish_after_wait,
}
use ion_win.Execution.Invariant.Transition.{moved}
use ion_win.Execution.Lifecycle.Outcomes.{
  lookup-modify_found, record_of, transition-Permitted, enter-terminal, enter-going,
}

-- The registry after `f` was written to an execution and it started cancelling.
abbrev interrupted :
    (now id : ℕ) → (Execution → Execution) → Execution → ExecutionManager → ExecutionManager
interrupted now id f e m = record m {
  active = modify id (λ _. moved now cancelling (f e)) (modify id f m.active);
}

module _ (now id : ℕ) (f : Execution → Execution) (e : Execution) (m : ExecutionManager)
    (found : lookup id m.active ≡ some e) (live : (f e).state ≡ running) where
  transition-cancelling :
      transition now id cancelling none (record m { active = modify id f m.active })
      ≡ (interrupted now id f e m, ok none)
  unfolding can_transition_to is_terminal
  transition-cancelling =
      transition-Permitted now id cancelling none (f e) (record m { active = modify id f m.active })
        (lookup-modify_found id f e m.active found) (record { edge = rw live; delivered = refl })
      ∙ enter-going now id cancelling none (f e) (record m { active = modify id f m.active }) refl

  lookup-interrupted :
      lookup id (interrupted now id f e m).active ≡ some (moved now cancelling (f e))
  lookup-interrupted =
      lookup-modify_found id (λ _. moved now cancelling (f e)) (f e) (modify id f m.active)
        (lookup-modify_found id f e m.active found)

abbrev request_of : ℕ → Execution → CancellationRequest
request_of id e = record { execution_ids = id ∷ []; process_ids = pids e }

snapshot_request_lem :
    (id : ℕ) (e : Execution) (m : ExecutionManager)
    → lookup id m.active ≡ some e
    → snapshot_request id m ≡ ok (request_of id e)
unfolding snapshot_request
snapshot_request_lem id e m found = rw (found, snapshot_request)

then_snapshot-interrupted :
    (now id : ℕ) (f : Execution → Execution) (e : Execution) (m : ExecutionManager)
    → lookup id m.active ≡ some e
    → (f e).state ≡ running
    → then_snapshot id
        (transition now id cancelling none (record m { active = modify id f m.active }))
      ≡ (interrupted now id f e m, ok (request_of id (f e)))
unfolding then_snapshot
then_snapshot-interrupted now id f e m found live =
    ap (then_snapshot id) (transition-cancelling now id f e m found live)
    ∙ ap (λ r. (interrupted now id f e m, r))
        (snapshot_request_lem id (moved now cancelling (f e)) (interrupted now id f e m)
          (lookup-interrupted now id f e m found live))

request-interrupted :
    (now id : ℕ) (e : Execution) (m : ExecutionManager)
    → lookup id m.active ≡ some e
    → e.state ≡ running
    → (request_cancellation now id m ≡ (interrupted now id cancel_token e m, ok (request_of id e)))
      × (request_timeout now id m ≡ (interrupted now id trigger_timeout e m, ok (request_of id e)))
unfolding request_cancellation request_cancellation_found request_timeout request_timeout_found
request-interrupted now id e m found live = (
  rw (found, request_cancellation, live)
      (then_snapshot-interrupted now id cancel_token e m found live),
  rw (found, request_timeout, live)
      (then_snapshot-interrupted now id trigger_timeout e m found live),
)

-- Requests on an execution that is cancelling already.
module _ (now id : ℕ) (e : Execution) (m : ExecutionManager) (found : lookup id m.active ≡ some e)
    (state : e.state ≡ cancelling) where
  request_cancellation-again : request_cancellation now id m ≡ (m, ok (request_of id e))
  unfolding request_cancellation request_cancellation_found
  request_cancellation-again =
      rw (found, request_cancellation, state) (ap (λ r. (m, r)) (snapshot_request_lem id e m found))

  request_timeout-again :
      request_timeout now id m ≡ (m, err (invalid_transition cancelling cancelling))
  unfolding request_timeout request_timeout_found
  request_timeout-again = rw (found, request_timeout, state) refl

-- What a request answers and leaves behind when it interrupts an execution.
pub record IsInterrupted (id : ℕ) (e : Execution) (timeout : Bool) (m : ExecutionManager)
    (o : Outcome CancellationRequest) : Type 0 where
  pub answer :
      o.1 ≡ ok (record { execution_ids = id ∷ []; process_ids = map (λ p. p.pid) e.processes })
  pub entry :
      lookup id o.0.active
      ≡ some (record e {
        state = cancelling;
        context = record (e.context) { cancellation = true };
        timeout_triggered = timeout;
      })
  pub others : (j : ℕ) → j ≢ id → lookup j o.0.active ≡ lookup j m.active
  pub rest : o.0 ≡ record m { active = o.0.active }

lookup-interrupted_other :
    (now id : ℕ) (f : Execution → Execution) (e : Execution) (m : ExecutionManager) (j : ℕ)
    → j ≢ id
    → lookup j (interrupted now id f e m).active ≡ lookup j m.active
lookup-interrupted_other now id f e m j other = rw (lookup-modify, lookup-modify) (ground arith)

-- A running execution that is asked to stop, or whose deadline has passed: it becomes cancelling,
-- with its cancellation token set; a timeout is marked as such, and a cancellation leaves the mark
-- as it was. The answer names the execution and its processes, and nothing else of the registry
-- changes. Asking again to stop gives the same answer and changes nothing, and a deadline that
-- passes then is refused, without a change.
pub request_interrupts :
    (now later id : ℕ) (e : Execution) (m : ExecutionManager)
    → lookup id m.active ≡ some e
    → e.state ≡ running
    → IsInterrupted id e e.timeout_triggered m (request_cancellation now id m)
      × IsInterrupted id e true m (request_timeout now id m)
      × (request_cancellation later id (request_cancellation now id m).0
          ≡ request_cancellation now id m)
      × (request_timeout later id (request_cancellation now id m).0
          ≡ ((request_cancellation now id m).0, err (invalid_transition cancelling cancelling)))
request_interrupts now later id e m found live =
    let made = request-interrupted now id e m found live in
    let cancelled_entry = lookup-interrupted now id cancel_token e m found live in
    rw made.0 (
      rw made.1 (
        record {
          answer = refl;
          entry = cancelled_entry;
          others = lookup-interrupted_other now id cancel_token e m;
          rest = refl;
        },
        record {
          answer = refl;
          entry = lookup-interrupted now id trigger_timeout e m found live;
          others = lookup-interrupted_other now id trigger_timeout e m;
          rest = refl;
        },
        request_cancellation-again later id (moved now cancelling (cancel_token e)) _
            cancelled_entry refl,
        request_timeout-again later id (moved now cancelling (cancel_token e)) _ cancelled_entry
            refl,
      ))

-- The result with which an interrupted wait ends.
abbrev pub interrupted_result : ExecutionResult → Text → ExecutionResult
interrupted_result natural text = record { exit_code = natural.exit_code; message = some text }

finish-cancelling :
    (now id : ℕ) (natural_state : ExecutionState) (natural : ExecutionResult) (e : Execution)
    (m : ExecutionManager)
    → lookup id m.active ≡ some e
    → e.state ≡ cancelling
    → 0 < m.history_limit
    → (finish_after_wait now id natural_state natural m).1
      ≡ ok (
          some (
            record_of now
              (if e.timeout_triggered then timed_out else cancelled)
              (some (interrupted_result natural (finish_message e)))
              e))
unfolding finish_after_wait can_transition_to is_terminal
finish-cancelling now id natural_state natural e m found state kept =
    rw (found, finish_after_wait, is_cancelled)
      (ap (λ o. o.1)
          (transition-Permitted now id last delivered e m found
              (record { edge = ground arith; delivered = sym last_terminal })
            ∙ enter-terminal now id last delivered e m last_terminal)
        ∙ rw (lt→ltb _ _ kept))
  where
    last : ExecutionState
    last = if e.timeout_triggered then timed_out else cancelled

    delivered : Option ExecutionResult
    delivered = some (interrupted_result natural (finish_message e))

    is_cancelled : is_cancelling e.state ≡ true
    is_cancelled = ap is_cancelling state

    last_terminal : is_terminal last ≡ true
    last_terminal = ground arith

module _ (id : ℕ) (e : Execution) (m : ExecutionManager) (found : lookup id m.active ≡ some e)
    (live : e.state ≡ running) (kept : 0 < m.history_limit) where
  -- In a registry that keeps records, and whatever state the wait itself ends in: a running
  -- execution whose deadline is then reported as passed ends as timed out, with the milliseconds
  -- of its deadline, if it has one, in the message; one that no deadline stopped and that is asked
  -- to stop ends as cancelled. The wait gives its record.
  pub interrupt_then_finish :
      (t₁ t₂ : ℕ) (natural_state : ExecutionState) (natural : ExecutionResult)
      → e.timeout_triggered ≡ false
      → ((finish_after_wait t₂ id natural_state natural (request_timeout t₁ id m).0).1
          ≡ ok (
              some (
                record_of t₂ timed_out
                  (some (interrupted_result natural (timed_out_message e.spec.timeout)))
                  (moved t₁ cancelling (trigger_timeout e)))))
        × ((finish_after_wait t₂ id natural_state natural (request_cancellation t₁ id m).0).1
            ≡ ok (
                some (
                  record_of t₂ cancelled
                    (some (interrupted_result natural (codes "cancelled")))
                    (moved t₁ cancelling (cancel_token e)))))
  unfolding finish_message
  interrupt_then_finish t₁ t₂ natural_state natural fresh = (
    rw (request-interrupted t₁ id e m found live).1 (
        finish-cancelling t₂ id natural_state natural (moved t₁ cancelling (trigger_timeout e)) _
          (lookup-interrupted t₁ id trigger_timeout e m found live) refl kept),
    rw (request-interrupted t₁ id e m found live).0 (
        finish-cancelling t₂ id natural_state natural (moved t₁ cancelling (cancel_token e)) _
          (lookup-interrupted t₁ id cancel_token e m found live) refl kept
        ∙ rw fresh),
  )
