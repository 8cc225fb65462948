-- ===== src/Execution/Reachability.antt =====
-- Every registry of src/execution.rs that the shell can reach: one step for each method that
-- changes it, with any clock, any answer of the operating system and in any order.
use ion_win.Base.{
  ℕ, ◌≡◌, Bool, true, false, Option, List, arith, Text, inl, inr, Bool-cases, Option-cases,
}
use ion_win.Base.Int.{ℤ}
use ion_win.Base.Map.{lookup, insert, modify, contains_key, lookup-insert}
use ion_win.Execution.Domain.{
  ExecutionSpec, ExecutionContext, ExecutionState, ExecutionResult, Execution, set_root_pid,
  add_process_with_display, set_process_exit,
}
use ion_win.Execution.Manager.{ManagedChild, ExecutionManager, new, create, transition}
use ion_win.Execution.Cancel.{
  request_cancellation, request_timeout, request_foreground_cancellation, finish_after_wait,
}
use ion_win.Execution.Jobs.{Polled, refresh_background_jobs}
use ion_win.Execution.Disown.{disown_background_jobs}
use ion_win.Execution.JobObjects.{JobCalls, assign_job, create_job, try_assign_job_object}
use ion_win.Execution.Invariant.{
  IsActive, IsValid, modify-IsValid, children-IsValid, remove_job-IsValid,
}
use ion_win.Execution.Invariant.Transition.{transition-IsValid, create-IsValid}
use ion_win.Execution.Invariant.Cancel.{
  request_cancellation-IsValid, request_timeout-IsValid, request_foreground_cancellation-IsValid,
  finish_after_wait-IsValid,
}
use ion_win.Execution.Invariant.Jobs.{
  refresh_background_jobs-IsValid, disown_background_jobs-IsValid,
}

-- What callers write through `get_mut`.
pub data Edit : Type 0 where
  root_pid : ℕ → Edit
  process : ℕ → Text → Edit
  exit : ℕ → Option ℤ → Edit

abbrev pub edit : Edit → Execution → Execution
edit (root_pid pid) e = set_root_pid pid e
edit (process pid display) e = add_process_with_display pid display e
edit (exit pid code) e = set_process_exit pid code e

pub data Step (m : ExecutionManager) : ExecutionManager → Type 0 where
  create_step :
      (now : ℕ) (spec : ExecutionSpec) (context : ExecutionContext)
      → Step m (create now spec context m).0
  transition_step :
      (now id : ℕ) (next : ExecutionState) (result : Option ExecutionResult)
      → Step m (transition now id next result m).0
  edit_step : (id : ℕ) (w : Edit) → Step m (record m { active = modify id (edit w) m.active })
  cancel_step : (now id : ℕ) → Step m (request_cancellation now id m).0
  timeout_step : (now id : ℕ) → Step m (request_timeout now id m).0
  interrupt_step : (now : ℕ) → Step m (request_foreground_cancellation now m).0
  finish_step :
      (now id : ℕ) (state : ExecutionState) (result : ExecutionResult)
      → Step m (finish_after_wait now id state result m).0
  refresh_step :
      (poll : ManagedChild → Polled) (now : ℕ) → Step m (refresh_background_jobs poll now m).0
  disown_step : (pids : List ℕ) → Step m (disown_background_jobs pids m).0
  children_step :
      (children : List (ℕ × List ManagedChild))
      → Step m (record m { background_children = children })
  job_step : (id : ℕ) (calls : JobCalls) → Step m (try_assign_job_object id calls m).0

pub data Reach (limit : ℕ) : ExecutionManager → Type 0 where
  fresh : Reach limit (new limit)
  after : {m m' : ExecutionManager} → Reach limit m → Step m m' → Reach limit m'

new-IsValid : (limit : ℕ) → IsValid (new limit)
unfolding lookup
new-IsValid limit = record {
  next_positive = omega arith;
  next_bound = omega arith;
  active_ok = λ k e h. cc;
  history_ok = tt;
  history_distinct = tt;
  bounded = omega arith;
  jobs_ok = λ k h. cc;
}

edit-IsActive :
    (w : Edit) (next_id id : ℕ) (e : Execution)
    → IsActive next_id id e
    → IsActive next_id id (edit w e)
unfolding set_root_pid add_process_with_display set_process_exit
edit-IsActive (root_pid pid) next_id id e a = record {
  same_id = a.same_id;
  positive = a.positive;
  below = a.below;
  live = a.live;
  no_finish = a.no_finish;
  no_result = a.no_result;
  has_start = a.has_start;
}
edit-IsActive (process pid display) next_id id e a = record {
  same_id = a.same_id;
  positive = a.positive;
  below = a.below;
  live = a.live;
  no_finish = a.no_finish;
  no_result = a.no_result;
  has_start = a.has_start;
}
edit-IsActive (exit pid code) next_id id e a = record {
  same_id = a.same_id;
  positive = a.positive;
  below = a.below;
  live = a.live;
  no_finish = a.no_finish;
  no_result = a.no_result;
  has_start = a.has_start;
}

job-IsValid :
    (id : ℕ) (m : ExecutionManager)
    → contains_key id m.active ≡ true
    → IsValid m
    → IsValid (record m { job_objects = insert id tt m.job_objects })
job-IsValid id m there v = record {
  next_positive = v.next_positive;
  next_bound = v.next_bound;
  active_ok = v.active_ok;
  history_ok = v.history_ok;
  history_distinct = v.history_distinct;
  bounded = v.bounded;
  jobs_ok = λ k h. ground (arith, v.jobs_ok k, there, lookup-insert id k tt m.job_objects, h);
}

assign_job-IsValid :
    (newly_created required : Bool) (id : ℕ) (calls : JobCalls) (m : ExecutionManager)
    → IsValid m
    → IsValid (assign_job newly_created required id calls m).0
unfolding assign_job
assign_job-IsValid newly_created required id calls m v = elim (Option-cases calls.assignment) [
  | inl fine ↦ rw (fine, assign_job) v
  | inr (error, failed) ↦ elim (Bool-cases newly_created) [
    | inl new_job ↦ rw (failed, assign_job, new_job) (remove_job-IsValid id m v)
    | inr old_job ↦ rw (failed, assign_job, old_job) v
  ]
]

try_assign_job_object-IsValid :
    (id : ℕ) (calls : JobCalls) (m : ExecutionManager)
    → IsValid m
    → IsValid (try_assign_job_object id calls m).0
unfolding try_assign_job_object create_job
try_assign_job_object-IsValid id calls m v = elim (Option-cases (lookup id m.active)) [
  | inl absent ↦ rw (absent, try_assign_job_object) v
  | inr (e, found) ↦ elim (Bool-cases (contains_key id m.job_objects)) [
    | inl old ↦ rw (found, try_assign_job_object, old) (assign_job-IsValid false _ id calls m v)
    | inr none_yet ↦ elim (Option-cases calls.creation) [
      | inr (error, failed) ↦ rw (found, try_assign_job_object, none_yet, failed, create_job) v
      | inl made ↦ elim (Option-cases calls.limiting) [
        | inr (error, failed) ↦
            rw (found, try_assign_job_object, none_yet, made, create_job, failed) v
        | inl limited ↦
            rw (found, try_assign_job_object, none_yet, made, create_job, limited)
              (assign_job-IsValid true _ id calls _ (job-IsValid id m (rw found) v))
      ]
    ]
  ]
]

pub Step-IsValid : {m m' : ExecutionManager} → Step m m' → IsValid m → IsValid m'
Step-IsValid {m} (create_step now spec context) v = create-IsValid now spec context m v
Step-IsValid {m} (transition_step now id next result) v = transition-IsValid now id next result m v
Step-IsValid {m} (edit_step id w) v =
    modify-IsValid id (edit w) m v (λ e found a. edit-IsActive w m.next_id id e a)
Step-IsValid {m} (cancel_step now id) v = request_cancellation-IsValid now id m v
Step-IsValid {m} (timeout_step now id) v = request_timeout-IsValid now id m v
Step-IsValid {m} (interrupt_step now) v = request_foreground_cancellation-IsValid now m v
Step-IsValid {m} (finish_step now id state result) v =
    finish_after_wait-IsValid now id state result m v
Step-IsValid {m} (refresh_step poll now) v = refresh_background_jobs-IsValid poll now m v
Step-IsValid {m} (disown_step pids) v = disown_background_jobs-IsValid pids m v
Step-IsValid {m} (children_step children) v = children-IsValid children m v
Step-IsValid {m} (job_step id calls) v = try_assign_job_object-IsValid id calls m v

-- In every registry that is reached: ids are below the counter, no active execution is in a
-- terminal state or has a result, a finished record is in a terminal state, has a result and is
-- no longer active, no two records share an id, the history is within its limit, and a job
-- object belongs to an active execution.
pub Reach-IsValid : (limit : ℕ) (m : ExecutionManager) → Reach limit m → IsValid m
Reach-IsValid limit m fresh = new-IsValid limit
Reach-IsValid limit m (after {m = m₀} r s) = Step-IsValid s (Reach-IsValid limit m₀ r)
