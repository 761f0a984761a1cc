-- ===== src/Store/Tasks.antt =====
-- internal/store/sqlite/tasks.go: the task repository.
use lac.Base.{
  ℕ, zero, suc, ◌-◌, String, ◌^^◌, ◌==◌, Bool, true, false, not, ◌&&◌, ◌||◌, Option, none, some,
  List, [], ◌∷◌, ◌++◌, map, ℤ, pos, ltb, le_ℤ, pos_part, if◌then◌else◌, find, exists, update_where,
  select, order_by, text_lt,
}
use lac.Base.Result.{
  Tx, ◌>>=◌, ◌>>◌, return, require, or_fail, check, query, exec, for_each, invalid_argument,
  not_found, already_exists, conflict,
}
use lac.Core.Time.{Time, require_micros, to_micros}
use lac.Core.Task.{
  Task, TaskState, queued, running, is_queued, is_running, is_finished, max_task_output, validate,
}
use lac.Store.{Db, TaskRow, scan_task, null_string}

-- `nullExitCode`.
unfoldable pub null_exit_code : Task → Option ℤ
null_exit_code t = if is_finished t.state then some t.exit_code else none

unfoldable pub row_of : Task → TaskRow
unfolding require_micros to_micros null_string null_exit_code
row_of t = record {
  id = t.id;
  resource_name = t.resource_name;
  command_key = t.command_key;
  workdir = t.workdir;
  requester_id = t.requester_id;
  worker_id = null_string t.worker_id;
  lease_id = null_string t.lease_id;
  state = t.state;
  exit_code = null_exit_code t;
  output = t.output;
  failure = t.failure;
  submitted_at = require_micros t.submitted_at;
  started_at = to_micros t.started_at;
  finished_at = to_micros t.finished_at;
}

-- The foreign keys of the nullable columns.
unfoldable pub known_agent : Option String → Db → Bool
known_agent none db = true
known_agent (some agent_id) db = exists (λ a. a.id == agent_id) db.agents

unfoldable pub known_lease : Option String → Db → Bool
known_lease none db = true
known_lease (some lease_id) db = exists (λ l. l.id == lease_id) db.leases

-- `Create`. The `require` lines are the table's primary key and its foreign keys.
unfoldable pub create : Task → Tx Db (Unit {0})
unfolding row_of
create task = do
  check (validate task)
  taken ← query (λ db. exists (λ t. t.id == task.id) db.tasks)
  require (not taken) already_exists
  resource ← query (λ db. exists (λ r. r.name == task.resource_name) db.resources)
  require resource invalid_argument
  requester ← query (known_agent (some task.requester_id))
  require requester invalid_argument
  worker ← query (known_agent (null_string task.worker_id))
  require worker invalid_argument
  lease ← query (known_lease (null_string task.lease_id))
  require lease invalid_argument
  exec (λ db. record db { tasks = db.tasks ++ row_of task ∷ [] })

-- `ByID`.
unfoldable pub by_id : String → Tx Db Task
by_id task_id = do
  row ← query (λ db. find (λ t. t.id == task_id) db.tasks)
  found ← or_fail row not_found
  return (scan_task found)

-- `ORDER BY submitted_at, id`.
unfoldable pub submitted_before : TaskRow → TaskRow → Bool
submitted_before a b =
    if ltb a.submitted_at b.submitted_at
    then true
    else if ltb b.submitted_at a.submitted_at
    then false
    else text_lt a.id b.id

-- `WHERE resource_name = ? AND state = 'queued'`.
unfoldable pub queued_for : String → TaskRow → Bool
queued_for resource_name t = t.resource_name == resource_name && is_queued t.state

-- `LIMIT 1`.
abbrev pub first : List TaskRow → Option TaskRow
first [] = none
first (t ∷ ts) = some t

unfoldable pub queued_rows : String → Db → List TaskRow
queued_rows resource_name db =
    order_by submitted_before (select (queued_for resource_name) db.tasks)

-- `NextQueued`.
unfoldable pub next_queued : String → Tx Db Task
next_queued resource_name = do
  row ← query (λ db. first (queued_rows resource_name db))
  found ← or_fail row not_found
  return (scan_task found)

-- `WHERE id = ? AND state = 'queued'`.
unfoldable pub claimable : String → TaskRow → Bool
claimable task_id t = t.id == task_id && is_queued t.state

unfoldable pub claim_row : String → String → Time → TaskRow → TaskRow
unfolding require_micros null_string
claim_row worker_id lease_id at t = record t {
  state = running;
  worker_id = some worker_id;
  lease_id = null_string lease_id;
  started_at = some (require_micros at);
}

-- `Claim`: only while the task is still queued. The foreign keys are checked for a row that the
-- update finds.
unfoldable pub claim : String → String → String → Time → Tx Db (Unit {0})
unfolding claimable claim_row
claim task_id worker_id lease_id at = do
  affected ← query (λ db. exists (claimable task_id) db.tasks)
  require affected conflict
  worker ← query (known_agent (some worker_id))
  require worker invalid_argument
  lease ← query (known_lease (null_string lease_id))
  require lease invalid_argument
  exec (λ db. record db {
    tasks = update_where (claimable task_id) (claim_row worker_id lease_id at) db.tasks;
  })

abbrev pub text_length : String → ℕ
text_length String.[] = zero
text_length (String.◌∷◌ c s) = suc (text_length s)

abbrev pub text_drop : ℕ → String → String
text_drop zero s = s
text_drop (suc n) String.[] = String.[]
text_drop (suc n) (String.◌∷◌ c s) = text_drop n s

-- `substr(s, -n)`: the last `n` characters, or all where there are fewer.
unfoldable pub last_characters : ℕ → String → String
last_characters n s = text_drop (text_length s - n) s

-- `WHERE id = ? AND state = 'running'`.
unfoldable pub in_hand : String → TaskRow → Bool
in_hand task_id t = t.id == task_id && is_running t.state

unfoldable pub append_row : String → TaskRow → TaskRow
unfolding last_characters
append_row chunk t = record t { output = last_characters max_task_output (t.output ^^ chunk) }

-- `AppendOutput`: no output changes nothing.
unfoldable pub append_output : String → String → Tx Db (Unit {0})
unfolding in_hand append_row
append_output task_id chunk = if chunk == "" then return tt else (do
  affected ← query (λ db. exists (in_hand task_id) db.tasks)
  exec (λ db. record db { tasks = update_where (in_hand task_id) (append_row chunk) db.tasks })
  require affected conflict)

-- `WHERE id = ? AND state IN ('running', 'queued')`.
unfoldable pub unfinished : String → TaskRow → Bool
unfinished task_id t = t.id == task_id && (is_running t.state || is_queued t.state)

unfoldable pub finish_row : TaskState → ℤ → String → Time → TaskRow → TaskRow
unfolding require_micros
finish_row state exit_code failure at t = record t {
  state = state;
  exit_code = some exit_code;
  failure = failure;
  finished_at = some (require_micros at);
}

-- `Finish`.
unfoldable pub finish : String → TaskState → ℤ → String → Time → Tx Db (Unit {0})
unfolding unfinished finish_row
finish task_id state exit_code failure at = do
  require (is_finished state) invalid_argument
  affected ← query (λ db. exists (unfinished task_id) db.tasks)
  exec (λ db. record db {
    tasks = update_where (unfinished task_id) (finish_row state exit_code failure at) db.tasks;
  })
  require affected conflict

abbrev pub default_task_limit : ℕ
default_task_limit = 50

abbrev pub take_rows : ℕ → List TaskRow → List TaskRow
take_rows zero ts = []
take_rows (suc n) [] = []
take_rows (suc n) (t ∷ ts) = t ∷ take_rows n ts

-- `ListByRequester`, newest first.
unfoldable pub list_by_requester : String → ℤ → Tx Db (List Task)
unfolding submitted_before
list_by_requester requester_id limit =
    let count = if le_ℤ limit (pos 0) then default_task_limit else pos_part limit in
    query (λ db. map scan_task (
      take_rows count (
        order_by (λ a b. submitted_before b a)
          (select (λ t. t.requester_id == requester_id) db.tasks))))

abbrev pub is_worker : String → Option String → Bool
is_worker worker_id none = false
is_worker worker_id (some w) = w == worker_id

-- `WHERE worker_id = ? AND state = 'running'`.
unfoldable pub run_by : String → TaskRow → Bool
run_by worker_id t = is_worker worker_id t.worker_id && is_running t.state

-- `runningTasksOf`, in the order of the table.
unfoldable pub running_tasks_of : String → Tx Db (List Task)
unfolding run_by
running_tasks_of worker_id = query (λ db. map scan_task (select (run_by worker_id) db.tasks))

unfoldable pub requeue_row : String → TaskRow → TaskRow
requeue_row reason t = record t {
  state = queued;
  worker_id = none;
  lease_id = none;
  started_at = none;
  output = "";
  failure = reason;
}

-- A round of the loop of `ReleaseAbandoned`.
unfoldable pub requeue : String → Task → Tx Db (Unit {0})
unfolding in_hand requeue_row
requeue reason task =
    exec (λ db. record db { tasks = update_where (in_hand task.id) (requeue_row reason) db.tasks })

-- `ReleaseAbandoned`. `format_time` is `Format(time.RFC3339)`.
unfoldable pub release_abandoned : (Time → String) → String → Time → Tx Db (List Task)
unfolding running_tasks_of requeue
release_abandoned format_time worker_id at = do
  abandoned ← running_tasks_of worker_id
  for_each (requeue ("requeued at " ^^ format_time at ^^ ": the worker went away")) abandoned
  return abandoned
