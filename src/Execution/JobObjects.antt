-- ===== src/Execution/JobObjects.antt =====
-- `try_assign_job_object` of src/execution.rs: an execution gets a Windows job object when its
-- first process is assigned. The calls on the job object answer by a parameter.
use ion_win.Base.{
  ℕ, Bool, true, false, ◌||◌, Option, none, some, Text, Result, ok, err, if◌then◌else◌, is_some,
}
use ion_win.Base.Map.{lookup, insert, remove, contains_key}
use ion_win.Execution.Domain.{ExecutionSpec, ExecutionError, not_found}
use ion_win.Execution.Manager.{ExecutionManager}

-- The error, if any, of each call that `try_assign_job_object` makes on a job object.
pub record JobCalls : Type 0 where
  pub creation : Option Text
  pub limiting : Option Text
  pub assignment : Option Text

pub data JobError : Type 0 where
  manager_error : ExecutionError → JobError
  os_error : Text → JobError

abbrev job_result : Bool → Text → Result JobError (Unit {0})
job_result required error = if required then err (os_error error) else ok tt

unfoldable pub assign_job :
    (newly_created required : Bool)
    → ℕ
    → JobCalls
    → ExecutionManager
    → ExecutionManager × Result JobError (Unit {0})
assign_job newly_created required id calls m = elim calls.assignment [
  | none ↦ (m, ok tt)
  | some error ↦ (
    if newly_created then record m { job_objects = remove id m.job_objects } else m,
    job_result required error,
  )
]

unfoldable pub create_job :
    (required : Bool)
    → ℕ
    → JobCalls
    → ExecutionManager
    → ExecutionManager × Result JobError (Unit {0})
unfolding assign_job
create_job required id calls m = elim calls.creation [
  | some error ↦ (m, job_result required error)
  | none ↦ elim calls.limiting [
    | some error ↦ (m, job_result required error)
    | none ↦
        assign_job true required id calls (record m { job_objects = insert id tt m.job_objects })
  ]
]

abbrev pub needs_job : ExecutionSpec → Bool
needs_job spec =
    is_some spec.timeout
    || (is_some (spec.limits).memory_bytes || is_some (spec.limits).process_count)

unfoldable pub try_assign_job_object :
    ℕ → JobCalls → ExecutionManager → ExecutionManager × Result JobError (Unit {0})
try_assign_job_object id calls m = elim (lookup id m.active) [
  | none ↦ (m, err (manager_error (not_found id)))
  | some e ↦
      if contains_key id m.job_objects
      then assign_job false (needs_job e.spec) id calls m
      else create_job (needs_job e.spec) id calls m
]
