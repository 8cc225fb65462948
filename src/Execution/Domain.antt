-- ===== src/Execution/Domain.antt =====
-- The types of src/execution.rs: launch intent, invocation context, lifecycle states, and the
-- executions and records that the registry keeps. Times and durations are nanoseconds; paths
-- are texts; the two ordered maps of the environment and the secrets are association lists.
use ion_win.Base.{
  ℕ, Bool, true, false, Option, none, some, List, [], ◌∷◌, ◌++◌, Text, if◌then◌else◌, ◌==◌,
}
use ion_win.Base.Int.{ℤ}

pub data ExecutionTarget : Type 0 where
  external : Text → List Text → ExecutionTarget
  pipeline : Text → ExecutionTarget
  builtin : Text → List Text → ExecutionTarget

pub data ExecutionMode : Type 0 where
  foreground background detached : ExecutionMode

pub data IoMode : Type 0 where
  inherit redirected capture : IoMode

pub data TerminalMode : Type 0 where
  inherit redirected pseudo_console : TerminalMode

pub record ExecutionLimits : Type 0 where
  pub memory_bytes : Option ℕ
  pub process_count : Option ℕ

pub record ExecutionSpec : Type 0 where
  pub target : ExecutionTarget
  pub cwd : Text
  pub environment_overrides : List (Text × Text)
  pub mode : ExecutionMode
  pub stdin : IoMode
  pub stdout : IoMode
  pub stderr : IoMode
  pub terminal : TerminalMode
  pub limits : ExecutionLimits
  pub timeout : Option ℕ

abbrev pub new_spec : ExecutionTarget → Text → ExecutionMode → ExecutionSpec
new_spec target cwd mode = record {
  target = target;
  cwd = cwd;
  environment_overrides = [];
  mode = mode;
  stdin = IoMode.inherit;
  stdout = IoMode.inherit;
  stderr = IoMode.inherit;
  terminal = TerminalMode.inherit;
  limits = record { memory_bytes = none; process_count = none };
  timeout = none;
}

-- The cancellation token is a flag shared by the clones of a context. Only the registry sets it,
-- through the context that it holds.
pub record ExecutionContext : Type 0 where
  pub effective_cwd : Text
  pub effective_environment : List (Text × Text)
  pub temporary_secrets : List (Text × Text)
  pub cancellation : Bool
  pub correlation_id : Option Text

abbrev pub new_context : Text → List (Text × Text) → ExecutionContext
new_context cwd environment = record {
  effective_cwd = cwd;
  effective_environment = environment;
  temporary_secrets = [];
  cancellation = false;
  correlation_id = none;
}

pub data ExecutionState : Type 0 where
  created starting running cancelling completed failed cancelled timed_out : ExecutionState

unfoldable pub is_terminal : ExecutionState → Bool
is_terminal completed = true
is_terminal failed = true
is_terminal cancelled = true
is_terminal timed_out = true
is_terminal _ = false

unfoldable pub can_transition_to : ExecutionState → ExecutionState → Bool
can_transition_to created starting = true
can_transition_to starting running = true
can_transition_to starting failed = true
can_transition_to running completed = true
can_transition_to running failed = true
can_transition_to running cancelling = true
can_transition_to cancelling cancelled = true
can_transition_to cancelling timed_out = true
can_transition_to _ _ = false

abbrev pub is_running : ExecutionState → Bool
is_running running = true
is_running _ = false

abbrev pub is_cancelling : ExecutionState → Bool
is_cancelling cancelling = true
is_cancelling _ = false

pub record ExecutionResult : Type 0 where
  pub exit_code : Option ℤ
  pub message : Option Text

pub record ProcessRecord : Type 0 where
  pub pid : ℕ
  pub display : Text
  pub exit_code : Option ℤ

pub record Execution : Type 0 where
  pub id : ℕ
  pub spec : ExecutionSpec
  pub context : ExecutionContext
  pub state : ExecutionState
  pub created_at : ℕ
  pub started_at : Option ℕ
  pub finished_at : Option ℕ
  pub root_pid : Option ℕ
  pub processes : List ProcessRecord
  pub result : Option ExecutionResult
  pub timeout_triggered : Bool

unfoldable pub set_root_pid : ℕ → Execution → Execution
set_root_pid pid e = record e { root_pid = some pid }

unfoldable pub add_process_with_display : ℕ → Text → Execution → Execution
add_process_with_display pid display e = record e {
  root_pid = elim e.root_pid [ none ↦ some pid | some root ↦ some root ];
  processes = e.processes ++ record { pid = pid; display = display; exit_code = none } ∷ [];
}

-- The first process with the pid gets the exit code.
unfoldable pub set_exit : ℕ → Option ℤ → List ProcessRecord → List ProcessRecord
set_exit pid code [] = []
set_exit pid code (p ∷ ps) =
    if p.pid == pid then record p { exit_code = code } ∷ ps else p ∷ set_exit pid code ps

unfoldable pub set_process_exit : ℕ → Option ℤ → Execution → Execution
unfolding set_exit
set_process_exit pid code e = record e { processes = set_exit pid code e.processes }

pub record ExecutionRecord : Type 0 where
  pub id : ℕ
  pub display : Text
  pub state : ExecutionState
  pub created_at : ℕ
  pub started_at : Option ℕ
  pub finished_at : ℕ
  pub root_pid : Option ℕ
  pub processes : List ProcessRecord
  pub result : Option ExecutionResult

pub record ExecutionSnapshot : Type 0 where
  pub id : ℕ
  pub display : Text
  pub state : ExecutionState
  pub created_at : ℕ
  pub started_at : Option ℕ
  pub finished_at : Option ℕ
  pub root_pid : Option ℕ
  pub processes : List ProcessRecord
  pub result : Option ExecutionResult

pub data ExecutionError : Type 0 where
  id_exhausted : ExecutionError
  not_found : ℕ → ExecutionError
  invalid_transition : ExecutionState → ExecutionState → ExecutionError
  terminal_result_required : ExecutionState → ExecutionError
  result_before_terminal : ExecutionState → ExecutionError
