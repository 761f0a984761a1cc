-- ===== src/Dispatch/Outcomes.antt =====
-- internal/service/dispatch/dispatch.go: what becomes of a task that was submitted.
use lac.Base.{
  ℕ, String, ◌==◌, not, ◌&&◌, ◌||◌, Option, none, some, List, [], ◌∷◌, length, ℤ, pos, negsuc, le_ℤ,
  if◌then◌else◌,
}
use lac.Base.Result.{Tx, Result, ok, err, conflict, unauthorised, ◌>>=◌, ◌>>◌, return, require}
use lac.Core.Time.{Time}
use lac.Core.Task.{Task, TaskState, is_queued, is_finished, succeeded, failed, cancelled}
use lac.Store.{Db}
use lac.Store.Tasks
use lac.Dispatch.State.{
  Service, Action, Round, Outcome, run, and_then, signal_arrival, signal_outcome, watch_outcomes,
  wait_loop,
}

-- The first half of `AppendOutput` and `Complete`: the task, if the worker runs it.
unfoldable pub own_task : String → String → Tx Db Task
own_task task_id worker_id = do
  task ← Tasks.by_id task_id
  require (task.worker_id == worker_id) unauthorised
  return task

-- `AppendOutput`. Its two statements are not one transaction.
unfoldable pub append_output : String → String → String → Action (Unit {0})
append_output task_id worker_id chunk s = and_then (run (own_task task_id worker_id) s) λ _ s1.
    and_then (run (Tasks.append_output task_id chunk) s1) λ _ s2. (ok tt, signal_outcome task_id s2)

-- The state of a task that ended with the exit code.
unfoldable pub ended : ℤ → String → TaskState
ended exit_code failure =
    if not (le_ℤ exit_code (pos 0) && le_ℤ (pos 0) exit_code) || not (failure == "")
    then failed
    else succeeded

-- `Complete`.
unfoldable pub complete : String → String → ℤ → String → Time → Action Task
complete task_id worker_id exit_code failure now s =
    and_then (run (own_task task_id worker_id) s) λ _ s1.
      and_then (run (Tasks.finish task_id (ended exit_code failure) exit_code failure now) s1)
        λ _ s2. run (Tasks.by_id task_id) (signal_outcome task_id s2)

-- The first half of `Cancel`: the task, if the requester submitted it and it is still queued.
unfoldable pub withdrawable : String → String → Tx Db Task
withdrawable task_id requester_id = do
  task ← Tasks.by_id task_id
  require (task.requester_id == requester_id) unauthorised
  require (is_queued task.state) conflict
  return task

-- The second half of `Cancel`.
unfoldable pub withdraw : String → Time → Action Task
withdraw task_id now s =
    and_then (run (Tasks.finish task_id cancelled (negsuc 0) "withdrawn by the requester" now) s)
      λ _ s'. run (Tasks.by_id task_id) (signal_outcome task_id s')

-- `Cancel`. Its statements are not one transaction: `meanwhile` is what the others do between.
unfoldable pub cancel : (Service → Service) → String → String → Time → Action Task
cancel meanwhile task_id requester_id now s =
    and_then (run (withdrawable task_id requester_id) s) λ _ s'. withdraw task_id now (meanwhile s')

-- `Task`.
unfoldable pub task : String → Action Task
task task_id = run (Tasks.by_id task_id)

-- A task that has finished ends the wait.
unfoldable pub when_finished : Result Task × Service → Result (Option Task) × Service
when_finished (ok t, s) = (ok (if is_finished t.state then some t else none), s)
when_finished (err e, s) = (err e, s)

-- `Await`.
unfoldable pub await : String → List Round → Service → Outcome Task × Service
await task_id =
    wait_loop (watch_outcomes task_id) (λ now s. when_finished (run (Tasks.by_id task_id) s)) none

-- `Mine`.
unfoldable pub mine : String → ℤ → Action (List Task)
mine requester_id limit = run (Tasks.list_by_requester requester_id limit)

-- Every task that was requeued wakes a worker of its resource.
unfoldable pub signal_requeued : List Task → Service → Service
signal_requeued [] s = s
signal_requeued (t ∷ ts) s = signal_requeued ts (signal_arrival t.resource_name s)

-- `ReleaseAbandoned`, whose statements each stand alone in the source; they never fail.
unfoldable pub release_abandoned : (Time → String) → String → Time → Action ℕ
release_abandoned format_time worker_id now s =
    and_then (run (Tasks.release_abandoned format_time worker_id now) s)
      λ requeued s'. (ok (length requeued), signal_requeued requeued s')
