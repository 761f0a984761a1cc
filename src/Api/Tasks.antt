-- ===== src/Api/Tasks.antt =====
-- internal/api/tasks.go: work for a shared worker. A method that waits answers with an outcome, as the
-- service does; its timeout is one of the reasons for which a round gives up.
use lac.Base.{
  String, ◌==◌, not, Bool, true, Option, none, some, List, map, ℤ, pos, lt_ℤ, if◌then◌else◌,
}
use lac.Base.Result.{Result, ok, err, invalid_argument}
use lac.Core.Time.{Time, Duration}
use lac.Core.Agent.{Agent}
use lac.Core.Task.{Task, TaskState}
use lac.Store.{Db}
use lac.Dispatch.State.{Command, Outcome, finished, sleeping, Round}
use lac.Dispatch.State
use lac.Dispatch.Work
use lac.Dispatch.Work.{Claimed}
use lac.Dispatch.Outcomes
use lac.Auth.Authenticator.{lease}
use lac.Api.State.{
  Api, Texts, Action, and_then, on_dispatch, await_dispatch, permit, name_of, parse_duration,
}

pub record TaskView : Type 0 where
  pub id : String
  pub command : String
  pub resource : String
  pub workdir : String
  pub requester : String
  pub worker : String
  pub state : TaskState
  pub exit_code : ℤ
  pub output : String
  pub failure : String
  pub submitted_at : String
  pub started_at : String
  pub finished_at : String

-- `formatTime` of a time that may be unset.
abbrev format_optional : Texts → Option Time → String
format_optional texts none = ""
format_optional texts (some t) = texts.format_time t

-- `viewOfTask`.
unfoldable pub view_of_task : Texts → Db → Task → TaskView
unfolding name_of
view_of_task texts db task = record {
  id = task.id;
  command = task.command_key;
  resource = task.resource_name;
  workdir = task.workdir;
  requester = name_of task.requester_id db;
  worker = name_of task.worker_id db;
  state = task.state;
  exit_code = task.exit_code;
  output = task.output;
  failure = task.failure;
  submitted_at = texts.format_time task.submitted_at;
  started_at = format_optional texts task.started_at;
  finished_at = format_optional texts task.finished_at;
}

pub record CommandView : Type 0 where
  pub key : String
  pub resource : String
  pub description : String
  pub run : List String
  pub time_limit : String

abbrev limit_text : Texts → Duration → String
limit_text texts d = if lt_ℤ (pos 0) d then texts.format_duration d else ""

-- The loop of `handleTaskCommands`.
unfoldable pub view_of_command : Texts → Command → CommandView
view_of_command texts command = record {
  key = command.key;
  resource = command.resource;
  description = command.description;
  run = command.run;
  time_limit = limit_text texts command.time_limit;
}

-- `handleTaskCommands`.
unfoldable pub handle_task_commands : Texts → Agent → Action (List CommandView)
unfolding view_of_command
handle_task_commands texts caller a =
    (ok (map (view_of_command texts) (State.commands_of a.dispatch)), a)

abbrev viewed : Texts → Result Task × Api → Result TaskView × Api
unfolding view_of_task
viewed texts r = and_then r λ task a. (ok (view_of_task texts a.db task), a)

-- A call that waits goes on with what it returns, and sleeps while that sleeps.
abbrev answered : {A B : Type 0} → (A → Action B) → Outcome A × Api → Outcome B × Api
answered f (finished r, a) = let (r', a') = and_then (r, a) f in (finished r', a')
answered f (sleeping, a) = (sleeping, a)

abbrev at_once : {A : Type 0} → Result A × Api → Outcome A × Api
at_once (r, a) = (finished r, a)

-- A call that waits, behind one that does not.
abbrev then_wait : {A B : Type 0} → Result A × Api → (A → Api → Outcome B × Api) → Outcome B × Api
then_wait (ok x, a) f = f x a
then_wait (err e, a) f = (finished (err e), a)

abbrev awaited : Texts → String → List Round → Api → Outcome TaskView × Api
unfolding await_dispatch Outcomes.await view_of_task
awaited texts task_id rounds a =
    answered (λ task a'. (ok (view_of_task texts a'.db task), a'))
      (await_dispatch (Outcomes.await task_id rounds) a)

pub record TaskSubmitParams : Type 0 where
  pub command : String
  pub workdir : String
  pub wait : Bool
  pub timeout : String

-- `handleTaskSubmit` with a task that was submitted.
unfoldable pub submitted :
    Texts → TaskSubmitParams → List Round → Task → Api → Outcome TaskView × Api
unfolding awaited parse_duration view_of_task
submitted texts arguments rounds task a =
    if not arguments.wait
    then (finished (ok (view_of_task texts a.db task)), a)
    else then_wait (parse_duration texts arguments.timeout, a)
        λ _ a'. awaited texts task.id rounds a'

-- `handleTaskSubmit`, with the identifier that is drawn and the rounds of a call that waits.
unfoldable pub handle_task_submit :
    Texts → TaskSubmitParams → String → Time → List Round → Agent → Api → Outcome TaskView × Api
unfolding on_dispatch Work.submit submitted
handle_task_submit texts arguments task_id now rounds caller a =
    then_wait
      (on_dispatch
        (Work.submit
          (record {
            requester_id = caller.id;
            command_key = arguments.command;
            workdir = arguments.workdir;
          })
          task_id now)
        a)
      (submitted texts arguments rounds)

-- `handleTaskWait`: there is work, and nothing is granted.
unfoldable pub handle_task_wait : String → Time → List Round → Agent → Api → Outcome Bool × Api
unfolding permit await_dispatch Work.wait_for_work
handle_task_wait resource now rounds caller a =
    then_wait (permit caller lease resource now a) λ _ a'.
      answered (λ _ a2. (ok true, a2)) (await_dispatch (Work.wait_for_work resource rounds) a')

pub record TaskClaimParams : Type 0 where
  pub resource : String
  pub lease_id : String
  pub no_wait : Bool

pub record TaskClaimResult : Type 0 where
  pub task : TaskView
  pub run : List String
  pub time_limit : String

abbrev view_of_claim : Texts → Db → Claimed → TaskClaimResult
unfolding view_of_task
view_of_claim texts db claimed = record {
  task = view_of_task texts db claimed.task;
  run = claimed.command.run;
  time_limit = limit_text texts claimed.command.time_limit;
}

-- `handleTaskClaim`.
unfoldable pub handle_task_claim :
    Texts → TaskClaimParams → Time → List Round → Agent → Api → Outcome TaskClaimResult × Api
unfolding permit await_dispatch Work.claim view_of_claim
handle_task_claim texts arguments now rounds caller a =
    then_wait (permit caller lease arguments.resource now a) λ _ a'.
      answered (λ claimed a2. (ok (view_of_claim texts a2.db claimed), a2))
        (await_dispatch
          (Work.claim arguments.resource caller.id arguments.lease_id arguments.no_wait now rounds)
          a')

-- What is pushed to the requester of a task that prints something.
pub record OutputNotification : Type 0 where
  pub agent_id : String
  pub task_id : String
  pub chunk : String

abbrev pushed : Bool → String → Result Task → Option OutputNotification
pushed has_notifier chunk (err e) = none
pushed has_notifier chunk (ok task) =
    if has_notifier
    then some (record { agent_id = task.requester_id; task_id = task.id; chunk = chunk })
    else none

-- `handleTaskOutput`, with what it pushes.
unfoldable pub handle_task_output : String → String → Agent → Action (Option OutputNotification)
unfolding on_dispatch Outcomes.append_output Outcomes.task
handle_task_output task_id chunk caller a =
    if task_id == ""
    then (err invalid_argument, a)
    else and_then (on_dispatch (Outcomes.append_output task_id caller.id chunk) a) λ _ a1.
      let (task, a2) = on_dispatch (Outcomes.task task_id) a1 in
      (ok (pushed a2.has_notifier chunk task), a2)

-- `handleTaskComplete`.
unfoldable pub handle_task_complete : Texts → String → ℤ → String → Time → Agent → Action TaskView
unfolding on_dispatch Outcomes.complete viewed
handle_task_complete texts task_id exit_code failure now caller a =
    if task_id == ""
    then (err invalid_argument, a)
    else viewed texts (on_dispatch (Outcomes.complete task_id caller.id exit_code failure now) a)

-- `handleTaskStatus`.
unfoldable pub handle_task_status :
    Texts → String → Bool → List Round → Agent → Api → Outcome TaskView × Api
unfolding on_dispatch Outcomes.task viewed awaited
handle_task_status texts task_id wait rounds caller a =
    if task_id == ""
    then (finished (err invalid_argument), a)
    else if wait
    then awaited texts task_id rounds a
    else at_once (viewed texts (on_dispatch (Outcomes.task task_id) a))

-- `handleTaskCancel`. `meanwhile` is what the others do between the statements of `Cancel`.
unfoldable pub handle_task_cancel :
    Texts → (State.Service → State.Service) → String → Time → Agent → Action TaskView
unfolding on_dispatch Outcomes.cancel viewed
handle_task_cancel texts meanwhile task_id now caller a =
    viewed texts (on_dispatch (Outcomes.cancel meanwhile task_id caller.id now) a)

-- `handleTaskList`: the caller's own.
unfoldable pub handle_task_list : Texts → ℤ → Agent → Action (List TaskView)
unfolding on_dispatch Outcomes.mine view_of_task
handle_task_list texts limit caller a =
    and_then (on_dispatch (Outcomes.mine caller.id limit) a)
      λ tasks a'. (ok (map (view_of_task texts a'.db) tasks), a')
