-- ===== src/Core/Task.antt =====
-- internal/core/task.go: work that one agent asks a shared worker to do.
use lac.Base.{ℕ, String, ◌==◌, Bool, true, false, Option, none, some, ℤ, if◌then◌else◌}
use lac.Base.Result.{Error, invalid_argument}
use lac.Core.Time.{Time}
use lac.Core.Name.{validate_name}

pub data TaskState : Type 0 where
  queued running succeeded failed cancelled : TaskState

pub TaskState-discrete : Discrete TaskState
TaskState-discrete = hlevel

abbrev pub is_queued : TaskState → Bool
is_queued queued = true
is_queued running = false
is_queued succeeded = false
is_queued failed = false
is_queued cancelled = false

abbrev pub is_running : TaskState → Bool
is_running queued = false
is_running running = true
is_running succeeded = false
is_running failed = false
is_running cancelled = false

-- `Finished`: the task will not change again.
abbrev pub is_finished : TaskState → Bool
is_finished queued = false
is_finished running = false
is_finished succeeded = true
is_finished failed = true
is_finished cancelled = true

abbrev pub max_task_output : ℕ
max_task_output = 262144

pub record Task : Type 0 where
  pub id : String
  pub resource_name : String
  pub command_key : String
  pub workdir : String
  pub requester_id : String
  pub worker_id : String
  pub lease_id : String
  pub state : TaskState
  pub exit_code : ℤ
  pub output : String
  pub failure : String
  pub submitted_at : Time
  pub started_at : Option Time
  pub finished_at : Option Time

-- `Validate`. Every value of `TaskState` is one that the domain defines.
unfoldable pub validate : Task → Option Error
validate t = if t.id == "" then some invalid_argument else elim (validate_name t.resource_name) [
  | some e ↦ some e
  | none ↦ elim (validate_name t.command_key) [
    | some e ↦ some e
    | none ↦
        if t.workdir == ""
        then some invalid_argument
        else if t.requester_id == ""
        then some invalid_argument
        else none
  ]
]
