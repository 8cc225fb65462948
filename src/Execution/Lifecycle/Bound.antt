-- ===== src/Execution/Lifecycle/Bound.antt =====
-- How many transitions the registry of src/execution.rs makes of one execution.
use ion_win.Base.{
  ℕ, ◌+◌, ◌≤◌, ◌<◌, ◌≡◌, ◌∙◌, ap, inl, inr, true, Option, none, some, arith, ok, Bool-cases,
}
use ion_win.Base.Map.{lookup}
use ion_win.Execution.Domain.{
  Execution, ExecutionState, is_terminal, can_transition_to, ExecutionResult, ExecutionRecord,
}
use ion_win.Execution.Manager.{ExecutionManager, transition}
use ion_win.Execution.Invariant.Transition.{moved}
use ion_win.Execution.Lifecycle.{rank, rank-le, can_transition_to-rank}
use ion_win.Execution.Lifecycle.Outcomes.{
  transition_accepts_iff, transition_retires, transition-Permitted, enter-going,
  lookup-modify_found,
}

abbrev pub state_in : Option Execution → Option ExecutionState
state_in none = none
state_in (some e) = some e.state

-- The state of an execution, while it is active.
abbrev pub state_of : ℕ → ExecutionManager → Option ExecutionState
state_of id m = state_in (lookup id m.active)

-- A history of the registry with `n` successful transitions of one execution. Between them anything
-- may happen that neither moves that execution to another state nor takes it out or puts it in.
pub data Transitions (id : ℕ) (m : ExecutionManager) : ℕ → ExecutionManager → Type 0 where
  start : Transitions id m 0 m
  made :
      {n : ℕ} {m₁ : ExecutionManager}
      → Transitions id m n m₁
      → (now : ℕ) (next : ExecutionState) (result : Option ExecutionResult)
        (returned : Option ExecutionRecord)
      → (transition now id next result m₁).1 ≡ ok returned
      → Transitions id m (n + 1) (transition now id next result m₁).0
  elsewhere :
      {n : ℕ} {m₁ : ExecutionManager}
      → Transitions id m n m₁
      → (m₂ : ExecutionManager) → state_of id m₂ ≡ state_of id m₁
      → Transitions id m n m₂

abbrev rank_of : Option ExecutionState → ℕ
rank_of none = 4
rank_of (some state) = rank state

rank_of-le : (o : Option ExecutionState) → rank_of o ≤ 4
rank_of-le none = omega arith
rank_of-le (some state) = rank-le state

terminal_below : (s next : ExecutionState) → can_transition_to s next ≡ true → rank s < 4
terminal_below s next edge = omega (arith, can_transition_to-rank s next edge, rank-le next)

at_lookup : {a b : Option Execution} → a ≡ b → rank_of (state_in a) ≡ rank_of (state_in b)
at_lookup = ap (λ o. rank_of (state_in o))

transition-rank :
    (now id : ℕ) (next : ExecutionState) (result : Option ExecutionResult)
    (returned : Option ExecutionRecord) (m : ExecutionManager)
    → (transition now id next result m).1 ≡ ok returned
    → rank_of (state_of id m) < rank_of (state_of id (transition now id next result m).0)
transition-rank now id next result returned m h =
    let (e, found, p) = (transition_accepts_iff now id next result m).0 (returned, h) in
    elim (Bool-cases (is_terminal next)) [
      | inl over ↦
          let after = at_lookup (transition_retires now id next result e m found p over).gone in
          omega (arith, at_lookup found, after, terminal_below e.state next p.edge)
      | inr going ↦
          let entered =
            transition-Permitted now id next result e m found p
            ∙ enter-going now id next result e m going in
          let after =
            ap (λ o. rank_of (state_of id o.0)) entered
            ∙ at_lookup (lookup-modify_found id (λ _. moved now next e) e m.active found) in
          omega (arith, at_lookup found, after, can_transition_to-rank e.state next p.edge)
    ]

Transitions-rank :
    {id : ℕ} {m : ExecutionManager} {n : ℕ} {m' : ExecutionManager}
    → Transitions id m n m'
    → rank_of (state_of id m) + n ≤ rank_of (state_of id m')
Transitions-rank start = omega arith
Transitions-rank {id} (made {m₁ = m₁} before now next result returned h) =
    omega (arith, Transitions-rank before, transition-rank now id next result returned m₁ h)
Transitions-rank (elsewhere before m₂ same) = rw same (Transitions-rank before)

-- Whatever else the registry does between them, no more than four transitions of one execution
-- succeed, and none once it is not active.
pub Transitions-bound :
    (id n : ℕ) (m m' : ExecutionManager)
    → Transitions id m n m'
    → (n ≤ 4) × (lookup id m.active ≡ none → n ≡ 0)
Transitions-bound id n m m' h =
    let below : rank_of (state_of id m') ≤ 4 = rank_of-le (state_of id m') in
    let grown = Transitions-rank h in
    (omega (arith, below, grown), λ absent. omega (arith, at_lookup absent, below, grown))
