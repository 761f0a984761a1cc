-- ===== src/Store/TaskHistory.antt =====
-- What no statement on the tasks undoes.
use lac.Base.{String, Bool, true, [], ◌∷◌, ◌++◌, ◌≡◌, arith, ℤ, update_where}
use lac.Base.Growth.{Grows, Grows-refl, Grows-trans, Grows-append, Grows-update_where}
use lac.Base.Result.{exec}
use lac.Base.Ensures.{Ensures, IsPreorder, Ensures-exec, ensures_rules}
use lac.Core.Time.{Time}
use lac.Core.Task.{Task, TaskState, is_finished}
use lac.Store.{Db, TaskRow}
use lac.Store.Tasks

-- A task keeps what was asked for, and once it has finished it is final.
pub record TaskLater (x y : TaskRow) : Type 0 where
  pub id : y.id ≡ x.id
  pub resource_name : y.resource_name ≡ x.resource_name
  pub command_key : y.command_key ≡ x.command_key
  pub workdir : y.workdir ≡ x.workdir
  pub requester_id : y.requester_id ≡ x.requester_id
  pub submitted_at : y.submitted_at ≡ x.submitted_at
  pub final : is_finished x.state ≡ true → y ≡ x

pub TaskLater-refl : (x : TaskRow) → TaskLater x x
TaskLater-refl x = ground arith

TaskLater-trans : (x y z : TaskRow) → TaskLater x y → TaskLater y z → TaskLater x z
TaskLater-trans x y z p q = ground arith

pub record TasksLater (s t : Db) : Type 0 where
  pub tasks : Grows TaskLater s.tasks t.tasks

pub TasksLater-IsPreorder : IsPreorder TasksLater
TasksLater-IsPreorder = record {
  rel_refl = λ s. record { tasks = Grows-refl TaskLater TaskLater-refl s.tasks };
  rel_trans =
      λ s t u p q. record { tasks = Grows-trans TaskLater TaskLater-trans _ _ _ p.tasks q.tasks };
}

insert_task-TasksLater :
    (row : TaskRow) → Ensures TasksLater (exec (λ s. record s { tasks = s.tasks ++ row ∷ [] }))
insert_task-TasksLater row =
    Ensures-exec {R = TasksLater} _
      (λ s. record { tasks = Grows-append TaskLater TaskLater-refl s.tasks (row ∷ []) })

pub create-TasksLater : (task : Task) → Ensures TasksLater (Tasks.create task)
unfolding Tasks.create
create-TasksLater task =
    search (ensures_rules, TasksLater-IsPreorder, insert_task-TasksLater) depth 40 fits 20000

update_tasks-TasksLater :
    (test : TaskRow → Bool) (f : TaskRow → TaskRow) (s : Db)
    → ((x : TaskRow) → test x ≡ true → TaskLater x (f x))
    → TasksLater s (record s { tasks = update_where test f s.tasks })
update_tasks-TasksLater test f s h = record {
  tasks = Grows-update_where TaskLater TaskLater-refl test f h s.tasks;
}

claimed-TaskLater :
    (id worker_id lease_id : String) (at : Time) (x : TaskRow)
    → Tasks.claimable id x ≡ true
    → TaskLater x (Tasks.claim_row worker_id lease_id at x)
unfolding Tasks.claimable Tasks.claim_row
claimed-TaskLater id worker_id lease_id at x h = ground arith

finished-TaskLater :
    (id : String) (state : TaskState) (code : ℤ) (failure : String) (at : Time) (x : TaskRow)
    → Tasks.unfinished id x ≡ true
    → TaskLater x (Tasks.finish_row state code failure at x)
unfolding Tasks.unfinished Tasks.finish_row
finished-TaskLater id state code failure at x h = ground arith

appended-TaskLater :
    (id chunk : String) (x : TaskRow)
    → Tasks.in_hand id x ≡ true
    → TaskLater x (Tasks.append_row chunk x)
unfolding Tasks.in_hand Tasks.append_row
appended-TaskLater id chunk x h = ground arith

requeued-TaskLater :
    (id reason : String) (x : TaskRow)
    → Tasks.in_hand id x ≡ true
    → TaskLater x (Tasks.requeue_row reason x)
unfolding Tasks.in_hand Tasks.requeue_row
requeued-TaskLater id reason x h = ground arith

pub claim-TasksLater :
    (id worker_id lease_id : String) (at : Time)
    → Ensures TasksLater (Tasks.claim id worker_id lease_id at)
unfolding Tasks.claim
claim-TasksLater id worker_id lease_id at =
    search
      (
        ensures_rules,
        TasksLater-IsPreorder,
        Ensures-exec,
        update_tasks-TasksLater,
        claimed-TaskLater id worker_id lease_id at,
      )
      depth 20

pub finish-TasksLater :
    (id : String) (state : TaskState) (code : ℤ) (failure : String) (at : Time)
    → Ensures TasksLater (Tasks.finish id state code failure at)
unfolding Tasks.finish
finish-TasksLater id state code failure at =
    search
      (
        ensures_rules,
        TasksLater-IsPreorder,
        Ensures-exec,
        update_tasks-TasksLater,
        finished-TaskLater id state code failure at,
      )
      depth 20

pub append_output-TasksLater :
    (id chunk : String) → Ensures TasksLater (Tasks.append_output id chunk)
unfolding Tasks.append_output
append_output-TasksLater id chunk =
    search
      (
        ensures_rules,
        TasksLater-IsPreorder,
        Ensures-exec,
        update_tasks-TasksLater,
        appended-TaskLater id chunk,
      )
      depth 20

requeue-TasksLater :
    (reason : String) (task : Task) → Ensures TasksLater (Tasks.requeue reason task)
unfolding Tasks.requeue
requeue-TasksLater reason task =
    Ensures-exec _ (λ s. update_tasks-TasksLater _ _ s (requeued-TaskLater task.id reason))

pub release_abandoned-TasksLater :
    (format : Time → String) (worker_id : String) (at : Time)
    → Ensures TasksLater (Tasks.release_abandoned format worker_id at)
unfolding Tasks.release_abandoned
release_abandoned-TasksLater format worker_id at =
    search (ensures_rules, TasksLater-IsPreorder, requeue-TasksLater) depth 20
