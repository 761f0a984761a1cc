-- ===== src/Dispatch/Lives.antt =====
-- Histories of the dispatch service, and what none of them undoes. An operation that runs several
-- statements outside a transaction first reads, and then writes: the events are the parts that write.
use lac.Base.{String, ◌==◌, true, Option, none, some, List, [], ◌∷◌, ◌≡◌, ℤ, find}
use lac.Base.Growth.{Grows-find}
use lac.Base.Result.{Result, err, not_found}
use lac.Base.Ensures.{Ensures, Reads, Ensures-Reads, ensures_rules, reads_rules}
use lac.Core.Time.{Time}
use lac.Core.Task.{Task, is_finished}
use lac.Store.{TaskRow}
use lac.Store.Agents
use lac.Store.Tasks
use lac.Store.TaskHistory.{
  TaskLater, TasksLater, TasksLater-IsPreorder, create-TasksLater, claim-TasksLater,
  finish-TasksLater, append_output-TasksLater, release_abandoned-TasksLater,
}
use lac.Dispatch.State.{Service, Catalogue, Command, run, signal_outcome, watch_arrivals}
use lac.Dispatch.Work.{
  SubmitRequest, asked_workdir, resolve_workdir, submit, submit_command, take_on, try_claim_tx,
  try_claim,
}
use lac.Dispatch.Outcomes.{ended, withdraw, release_abandoned}
use lac.Dispatch.Steps.{
  run-rel, and_then-rel, db-signal_arrival, db-signal_outcome, db-signal_requeued, db-settled,
}

pub data Event : Type 0 where
  submits : SubmitRequest → String → Event
  tries : String → String → String → Event
  appends : String → String → Event
  ends : String → ℤ → String → Event
  withdraws : String → Event
  abandons : String → Event

unfoldable pub apply : (Time → String) → Time → Event → Service → Service
apply format now (submits request task_id) s = (submit request task_id now s).1
apply format now (tries resource_name worker_id lease_id) s =
    (try_claim resource_name worker_id lease_id now (watch_arrivals resource_name s)).1
apply format now (appends task_id chunk) s =
    signal_outcome task_id (run (Tasks.append_output task_id chunk) s).1
apply format now (ends task_id exit_code failure) s =
    signal_outcome task_id
      (run (Tasks.finish task_id (ended exit_code failure) exit_code failure now) s).1
apply format now (withdraws task_id) s = (withdraw task_id now s).1
apply format now (abandons worker_id) s = (release_abandoned format worker_id now s).1

unfoldable pub replay : (Time → String) → List (Time × Event) → Service → Service
unfolding apply
replay format [] s = s
replay format ((now, e) ∷ es) s = replay format es (apply format now e s)

next_queued-Reads : (n : String) → Reads (Tasks.next_queued n)
unfolding Tasks.next_queued
next_queued-Reads n = search reads_rules

take_on-TasksLater :
    (command : Option Command) (task : Task) (worker_id lease_id : String) (at : Time)
    → Ensures TasksLater (take_on command task worker_id lease_id at)
unfolding take_on
take_on-TasksLater none task worker_id lease_id at =
    search (ensures_rules, TasksLater-IsPreorder, finish-TasksLater) depth 20
take_on-TasksLater (some c) task worker_id lease_id at =
    search (ensures_rules, TasksLater-IsPreorder, claim-TasksLater) depth 20

try_claim_tx-TasksLater :
    (catalogue : Catalogue) (n worker_id lease_id : String) (at : Time)
    → Ensures TasksLater (try_claim_tx catalogue n worker_id lease_id at)
unfolding try_claim_tx
try_claim_tx-TasksLater catalogue n worker_id lease_id at =
    search (ensures_rules, TasksLater-IsPreorder, next_queued-Reads, take_on-TasksLater) depth 20

task_by_id-Reads : (id : String) → Reads (Tasks.by_id id)
unfolding Tasks.by_id
task_by_id-Reads id = search reads_rules

agent_by_id-Reads : (id : String) → Reads (Agents.by_id id)
unfolding Agents.by_id
agent_by_id-Reads id = search reads_rules

resolve_workdir-TasksLater :
    (roots : List String) (request : SubmitRequest)
    → Ensures TasksLater (resolve_workdir roots request)
unfolding resolve_workdir asked_workdir
resolve_workdir-TasksLater roots request =
    search (ensures_rules, TasksLater-IsPreorder, agent_by_id-Reads) depth 20

withdraw-TasksLater :
    (task_id : String) (now : Time) (s : Service) → TasksLater s.db (withdraw task_id now s).1.db
unfolding withdraw signal_outcome
withdraw-TasksLater task_id now s =
    and_then-rel _ _ s TasksLater-IsPreorder (finish-TasksLater task_id _ _ _ now) λ _ t.
      run-rel (Tasks.by_id task_id) (signal_outcome task_id t) TasksLater-IsPreorder
        (Ensures-Reads _ TasksLater-IsPreorder (task_by_id-Reads task_id))

submit_command-TasksLater :
    (request : SubmitRequest) (command : Command) (task_id : String) (now : Time) (s : Service)
    → TasksLater s.db (submit_command request command task_id now s).1.db
unfolding submit_command
submit_command-TasksLater request command task_id now s =
    and_then-rel _ _ s TasksLater-IsPreorder (resolve_workdir-TasksLater s.workdir_roots request)
      λ workdir t.
        and_then-rel _ _ t TasksLater-IsPreorder (create-TasksLater _)
          λ _ u. rw (db-signal_arrival command.resource u) (TasksLater-IsPreorder.rel_refl u.db)

submit-TasksLater :
    (request : SubmitRequest) (task_id : String) (now : Time) (s : Service)
    → TasksLater s.db (submit request task_id now s).1.db
unfolding submit
submit-TasksLater request task_id now s = go (s.catalogue.command request.command_key)
  where
    go :
        (command : Option Command)
        → TasksLater s.db
            (elim command as (λ _. Result Task × Service) [
              | none ↦ (err not_found, s)
              | some c ↦ submit_command request c task_id now s
            ]).1.db
    go none = TasksLater-IsPreorder.rel_refl s.db
    go (some c) = submit_command-TasksLater request c task_id now s

apply-TasksLater :
    (format : Time → String) (now : Time) (e : Event) (s : Service)
    → TasksLater s.db (apply format now e s).db
unfolding apply try_claim release_abandoned watch_arrivals
apply-TasksLater format now (submits request task_id) s = submit-TasksLater request task_id now s
apply-TasksLater format now (tries n worker_id lease_id) s = rw (db-settled _) (
    run-rel _ (watch_arrivals n s) TasksLater-IsPreorder
      (try_claim_tx-TasksLater s.catalogue n worker_id lease_id now))
apply-TasksLater format now (appends id chunk) s =
    rw (db-signal_outcome id)
      (run-rel _ s TasksLater-IsPreorder (append_output-TasksLater id chunk))
apply-TasksLater format now (ends id code failure) s =
    rw (db-signal_outcome id)
      (run-rel _ s TasksLater-IsPreorder (finish-TasksLater id _ code failure now))
apply-TasksLater format now (withdraws id) s = withdraw-TasksLater id now s
apply-TasksLater format now (abandons worker_id) s =
    and_then-rel _ _ s TasksLater-IsPreorder (release_abandoned-TasksLater format worker_id now)
      λ requeued t. rw (db-signal_requeued requeued t) (TasksLater-IsPreorder.rel_refl t.db)

replay-TasksLater :
    (format : Time → String) (events : List (Time × Event)) (s : Service)
    → TasksLater s.db (replay format events s).db
unfolding replay
replay-TasksLater format [] s = TasksLater-IsPreorder.rel_refl s.db
replay-TasksLater format ((now, e) ∷ es) s =
    TasksLater-IsPreorder.rel_trans _ _ _ (apply-TasksLater format now e s)
      (replay-TasksLater format es (apply format now e s))

-- Over any history of the dispatch service, whose operations may interleave between their statements,
-- a task that has finished keeps its row as it is: its outcome, its output and its exit code stand,
-- and it is not run again.
pub finished_task_is_final :
    (format : Time → String) (events : List (Time × Event)) (s : Service) (id : String)
    (r : TaskRow)
    → find (λ t. t.id == id) s.db.tasks ≡ some r
    → is_finished r.state ≡ true
    → find (λ t. t.id == id) (replay format events s).db.tasks ≡ some r
finished_task_is_final format events s id r found final =
    let (y, later, p) =
      Grows-find TaskLater (λ t. t.id == id) (λ x y p. rw p.id) s.db.tasks _ r
        (replay-TasksLater format events s).tasks found in
    rw (← p.final final) later
