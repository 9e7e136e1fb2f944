-- ===== src/Distributed/Models.antt =====
-- distributed/models.py. Task objects are shared: they stand in a store, and a reference is a number.
use recoverx_cli.Prelude.{ℕ, Bool, true, false, List, ◌==◌, if◌then◌else◌}
use Prim.Native.String.{String}

pub data TaskState : Type 0 where
  pending assigned running completed failed cancelled retry : TaskState

pub data TaskPriority : Type 0 where
  low normal high critical : TaskPriority

-- `priority.value`
unfoldable pub priority_value : TaskPriority → ℕ
priority_value low = 0
priority_value normal = 1
priority_value high = 2
priority_value critical = 3

-- The values that the parameters and results of tasks hold.
pub data Value : Type 0 where
  string : String → Value
  number : ℕ → Value
  empty_list : Value

abbrev pub Params : Type 0
Params = List (String × Value)

-- Progress, creation time and dependencies are kept by no operation of the package.
pub record Task : Type 0 where
  pub task_id : String
  pub task_type : String
  pub params : Params
  pub state : TaskState
  pub priority : TaskPriority
  pub assigned_to : String
  pub result : Params
  pub error : String
  pub retry_count : ℕ
  pub max_retries : ℕ

-- The objects, by their references.
abbrev pub Store : Type 0
Store = ℕ → Task

unfoldable pub write : Store → ℕ → Task → Store
write tasks ref task = λ other. if other == ref then task else tasks other

unfoldable pub set_state : Store → ℕ → TaskState → Store
unfolding write
set_state tasks ref state = write tasks ref (record (tasks ref) { state = state })

-- `task.state == TaskState.PENDING`, and so on
abbrev pub is_pending : TaskState → Bool
is_pending pending = true
is_pending _ = false

abbrev pub is_assigned : TaskState → Bool
is_assigned assigned = true
is_assigned _ = false

abbrev pub is_failed : TaskState → Bool
is_failed failed = true
is_failed _ = false
