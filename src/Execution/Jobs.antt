-- ===== src/Execution/Jobs.antt =====
-- `refresh_background_jobs` of src/execution.rs: the children of the background executions are
-- polled, and an execution all of whose children are gone is finished. What the operating system
-- answers for a child is a parameter.
use ion_win.Base.{
  ℕ, Bool, true, Option, none, some, List, [], ◌∷◌, ◌++◌, Text, if◌then◌else◌, is_empty,
}
use ion_win.Base.Int.{ℤ}
use ion_win.Base.Map.{lookup, remove, modify, keys}
use ion_win.Execution.Domain.{completed, failed, ExecutionState, Execution, set_process_exit}
use ion_win.Execution.Manager.{ManagedChild, ExecutionManager}
use ion_win.Execution.Cancel.{finish_after_wait}

-- What `try_wait` answers: still running, exited with a code and a verdict, or an error.
pub data Polled : Type 0 where
  pending : Polled
  exited : Option ℤ → Bool → Polled
  broken : Text → Polled

-- The variables of the inner loop of `refresh_background_jobs`.
pub record Sweep : Type 0 where
  pub kept : List ManagedChild
  pub listed : List (ℕ × Text)
  pub final_code : Option ℤ
  pub final_success : Bool
  pub failure : Option Text
  pub updates : List (ℕ × Option ℤ)

unfoldable pub sweep_one : Polled → ManagedChild → Sweep → Sweep
sweep_one pending c s = record s {
  kept = s.kept ++ c ∷ [];
  listed = s.listed ++ (c.child, c.command) ∷ [];
}
sweep_one (exited code success) c s = record s {
  final_code = code;
  final_success = success;
  updates = s.updates ++ (c.child, code) ∷ [];
}
sweep_one (broken error) c s = record s { failure = some error }

unfoldable pub apply_updates : List (ℕ × Option ℤ) → Execution → Execution
apply_updates [] e = e
apply_updates ((pid, code) ∷ rest) e = apply_updates rest (set_process_exit pid code e)

-- An execution all of whose background children are gone.
pub record Finished : Type 0 where
  pub id : ℕ
  pub final_code : Option ℤ
  pub final_success : Bool
  pub failure : Option Text

pub record Refresh : Type 0 where
  pub manager : ExecutionManager
  pub listed : List (ℕ × Text)
  pub finished : List Finished

unfoldable pub final_state : Option Text → Bool → ExecutionState
final_state (some _) success = failed
final_state none success = if success then completed else failed

unfoldable pub finish_one : ℕ → Finished → ExecutionManager → ExecutionManager
unfolding final_state
finish_one now f m =
    (finish_after_wait now f.id (final_state f.failure f.final_success)
      (record { exit_code = f.final_code; message = f.failure })
      (record m { background_children = remove f.id m.background_children })).0

unfoldable pub finish_each : ℕ → List Finished → ExecutionManager → ExecutionManager
unfolding finish_one
finish_each now [] m = m
finish_each now (f ∷ fs) m = finish_each now fs (finish_one now f m)

abbrev pub start_sweep : List (ℕ × Text) → Sweep
start_sweep listed = record {
  kept = [];
  listed = listed;
  final_code = none;
  final_success = true;
  failure = none;
  updates = [];
}

module _ (poll : ManagedChild → Polled) where
  unfoldable pub sweep : List ManagedChild → Sweep → Sweep
  unfolding sweep_one
  sweep [] s = s
  sweep (c ∷ cs) s = sweep cs (sweep_one (poll c) c s)

  unfoldable pub refresh_children : ℕ → List ManagedChild → Refresh → Refresh
  unfolding sweep apply_updates
  refresh_children id children r =
      let m = r.manager in
      let s = sweep children (start_sweep r.listed) in
      record {
        manager = record m {
          background_children = modify id (λ _. s.kept) m.background_children;
          active = modify id (apply_updates s.updates) m.active;
        };
        listed = s.listed;
        finished =
            if is_empty s.kept
            then r.finished
              ++ record {
                id = id;
                final_code = s.final_code;
                final_success = s.final_success;
                failure = s.failure;
              }
                ∷ []
            else r.finished;
      }

  unfoldable pub refresh_one : ℕ → Refresh → Refresh
  unfolding refresh_children
  refresh_one id r = elim (lookup id (r.manager).background_children) [
    | none ↦ r
    | some children ↦ refresh_children id children r
  ]

  unfoldable pub refresh_each : List ℕ → Refresh → Refresh
  unfolding refresh_one
  refresh_each [] r = r
  refresh_each (id ∷ ids) r = refresh_each ids (refresh_one id r)

  unfoldable pub refresh_background_jobs : ℕ → ExecutionManager → ExecutionManager × List (ℕ × Text)
  unfolding refresh_each finish_each
  refresh_background_jobs now m =
      let r =
        refresh_each (keys m.background_children)
          (record { manager = m; listed = []; finished = [] }) in
      (finish_each now r.finished r.manager, r.listed)
