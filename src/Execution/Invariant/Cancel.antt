-- ===== src/Execution/Invariant/Cancel.antt =====
-- Cancellation, timeout and the end of a wait in src/execution.rs keep the registry's invariant.
use ion_win.Base.{
  ℕ, ◌≡◌, ◌⊎◌, inl, inr, true, false, Option, none, some, List, [], ◌∷◌, Bool-cases, Option-cases,
  ok, err, panic,
}
use ion_win.Base.Map.{lookup, modify}
use ion_win.Execution.Domain.{
  ExecutionState, cancelling, is_running, is_cancelling, ExecutionResult, Execution,
  ExecutionRecord,
}
use ion_win.Execution.Manager.{ExecutionManager, CancellationRequest, Outcome, cancel_token}
use ion_win.Execution.Cancel.{
  then_snapshot, request_cancellation_found, request_cancellation, trigger_timeout,
  request_timeout_found, request_timeout, cancel_one, foreground_ids, cancel_each,
  request_foreground_cancellation, finish_after_wait,
}
use ion_win.Execution.Invariant.{IsValid, modify-IsValid}
use ion_win.Execution.Invariant.Transition.{transition-IsValid}

-- A write that changes neither the id, the state, the times nor the result.
module _ (id : ℕ) (m : ExecutionManager) (v : IsValid m) where
  pub cancel_token-IsValid : IsValid (record m { active = modify id cancel_token m.active })
  cancel_token-IsValid = modify-IsValid id cancel_token m v (λ e found a. record {
    same_id = a.same_id;
    positive = a.positive;
    below = a.below;
    live = a.live;
    no_finish = a.no_finish;
    no_result = a.no_result;
    has_start = a.has_start;
  })

  pub trigger_timeout-IsValid : IsValid (record m { active = modify id trigger_timeout m.active })
  trigger_timeout-IsValid = modify-IsValid id trigger_timeout m v (λ e found a. record {
    same_id = a.same_id;
    positive = a.positive;
    below = a.below;
    live = a.live;
    no_finish = a.no_finish;
    no_result = a.no_result;
    has_start = a.has_start;
  })

then_snapshot-IsValid :
    (id : ℕ) (r : Outcome (Option ExecutionRecord)) → IsValid r.0 → IsValid (then_snapshot id r).0
unfolding then_snapshot
then_snapshot-IsValid id (m, ok _) v = v
then_snapshot-IsValid id (m, err x) v = v
then_snapshot-IsValid id (m, panic) v = v

request_cancellation_found-IsValid :
    (now id : ℕ) (e : Execution) (m : ExecutionManager)
    → IsValid m
    → IsValid (request_cancellation_found now id e m).0
unfolding request_cancellation_found
request_cancellation_found-IsValid now id e m v =
    by_state (Bool-cases (is_running e.state)) (Bool-cases (is_cancelling e.state))
  where
    by_state :
        (is_running e.state ≡ true) ⊎ (is_running e.state ≡ false)
        → (is_cancelling e.state ≡ true) ⊎ (is_cancelling e.state ≡ false)
        → IsValid (request_cancellation_found now id e m).0
    by_state (inl r) c = rw r (
        then_snapshot-IsValid id _
          (transition-IsValid now id cancelling none _ (cancel_token-IsValid id m v)))
    by_state (inr r) (inl c) = rw (r, c) v
    by_state (inr r) (inr c) = rw (r, c) v

pub request_cancellation-IsValid :
    (now id : ℕ) (m : ExecutionManager) → IsValid m → IsValid (request_cancellation now id m).0
unfolding request_cancellation
request_cancellation-IsValid now id m v = elim (Option-cases (lookup id m.active)) [
  | inl absent ↦ rw (absent, request_cancellation) v
  | inr (e, found) ↦
      rw (found, request_cancellation) (request_cancellation_found-IsValid now id e m v)
]

request_timeout_found-IsValid :
    (now id : ℕ) (e : Execution) (m : ExecutionManager)
    → IsValid m
    → IsValid (request_timeout_found now id e m).0
unfolding request_timeout_found
request_timeout_found-IsValid now id e m v = elim (Bool-cases (is_running e.state)) [
  | inl r ↦ rw r (
      then_snapshot-IsValid id _
        (transition-IsValid now id cancelling none _ (trigger_timeout-IsValid id m v)))
  | inr r ↦ rw r v
]

pub request_timeout-IsValid :
    (now id : ℕ) (m : ExecutionManager) → IsValid m → IsValid (request_timeout now id m).0
unfolding request_timeout
request_timeout-IsValid now id m v = elim (Option-cases (lookup id m.active)) [
  | inl absent ↦ rw (absent, request_timeout) v
  | inr (e, found) ↦ rw (found, request_timeout) (request_timeout_found-IsValid now id e m v)
]

cancel_one-IsValid : (now id : ℕ) (m : ExecutionManager) → IsValid m → IsValid (cancel_one now id m)
unfolding cancel_one
cancel_one-IsValid now id m v = elim (Option-cases (lookup id m.active)) [
  | inl absent ↦ rw (absent, cancel_one) v
  | inr (e, found) ↦ elim (Bool-cases (is_running e.state)) [
    | inl r ↦
        rw (found, cancel_one, r)
          (transition-IsValid now id cancelling none _ (cancel_token-IsValid id m v))
    | inr r ↦ rw (found, cancel_one, r) v
  ]
]

cancel_each-IsValid :
    (now : ℕ) (ids : List ℕ) (m : ExecutionManager) (request : CancellationRequest)
    → IsValid m
    → IsValid (cancel_each now ids m request).0
unfolding cancel_each
cancel_each-IsValid now [] m request v = v
cancel_each-IsValid now (id ∷ ids) m request v =
    cancel_each-IsValid now ids _ _ (cancel_one-IsValid now id m v)

pub request_foreground_cancellation-IsValid :
    (now : ℕ) (m : ExecutionManager) → IsValid m → IsValid (request_foreground_cancellation now m).0
unfolding request_foreground_cancellation
request_foreground_cancellation-IsValid now m v =
    cancel_each-IsValid now (foreground_ids m.active) m
      (record { execution_ids = []; process_ids = [] }) v

pub finish_after_wait-IsValid :
    (now id : ℕ) (state : ExecutionState) (result : ExecutionResult) (m : ExecutionManager)
    → IsValid m
    → IsValid (finish_after_wait now id state result m).0
unfolding finish_after_wait
finish_after_wait-IsValid now id state result m v = elim (Option-cases (lookup id m.active)) [
  | inl absent ↦ rw (absent, finish_after_wait) (transition-IsValid now id state (some result) m v)
  | inr (e, found) ↦ elim (Bool-cases (is_cancelling e.state)) [
    | inl c ↦ rw (found, finish_after_wait, c) (transition-IsValid now id _ _ m v)
    | inr c ↦ rw (found, finish_after_wait, c) (transition-IsValid now id state (some result) m v)
  ]
]
