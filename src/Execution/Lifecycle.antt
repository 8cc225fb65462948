-- ===== src/Execution/Lifecycle.antt =====
-- The lifecycle of one execution in src/execution.rs: which transitions the registry makes, what
-- they change, and what a refusal leaves alone.
pub mod Outcomes
pub mod Interrupts
pub mod Bound
use ion_win.Base.{
  ℕ, ◌+◌, ◌-◌, ◌≤◌, ◌<◌, ◌≡◌, refl, sym, ◌∙◌, ap, ◌≢◌, ◌↔◌, ◌⊎◌, inl, inr, Bool, true, false, not,
  Option, none, some, List, [], ◌∷◌, ◌++◌, arith, Result, ok, err, panic, is_some, ltb,
  if◌then◌else◌, ◌==◌, Bool-cases, Option-cases, length, drop,
}
use ion_win.Base.Map.{lookup, remove, modify, lookup-remove, lookup-modify}
use ion_win.Execution.Domain.{
  ExecutionState, created, starting, running, cancelling, completed, failed, cancelled, timed_out,
  is_terminal, can_transition_to, is_running, ExecutionResult, Execution, ExecutionRecord,
  ExecutionError, not_found, invalid_transition, terminal_result_required, result_before_terminal,
}
use ion_win.Execution.Manager.{
  ExecutionManager, Outcome, display_for, sanitize, push_history, enter, transition_found,
  transition, trim,
}
use ion_win.Execution.Invariant.{IsValid, trim_lem}
use ion_win.Execution.Invariant.Transition.{moved}

-- How many transitions an execution has behind it at least.
abbrev pub rank : ExecutionState → ℕ
rank created = 0
rank starting = 1
rank running = 2
rank cancelling = 3
rank _ = 4

pub can_transition_to-rank : (s t : ExecutionState) → can_transition_to s t ≡ true → rank s < rank t
unfolding can_transition_to
can_transition_to-rank created t h = ground arith
can_transition_to-rank starting t h = ground arith
can_transition_to-rank running t h = ground arith
can_transition_to-rank _ t h = ground arith

pub rank-le : (s : ExecutionState) → rank s ≤ 4
rank-le created = omega arith
rank-le _ = omega arith

-- The three guards of a transition.
pub record Permitted (next : ExecutionState) (result : Option ExecutionResult) (e : Execution)
    : Type 0 where
  pub edge : can_transition_to e.state next ≡ true
  pub delivered : is_some result ≡ is_terminal next
