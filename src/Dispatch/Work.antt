-- ===== src/Dispatch/Work.antt =====
-- internal/service/dispatch/dispatch.go: submitting work and claiming it.
use lac.Base.{
  String, ◌^^◌, ◌==◌, Bool, true, false, Option, none, some, List, [], ◌∷◌, exists, pos, negsuc,
  if◌then◌else◌,
}
use lac.Base.Result.{
  Tx, Result, ok, err, Error, not_found, conflict, invalid_argument, unauthorised, ◌>>=◌, ◌>>◌,
  return, require,
}
use lac.Core.Time.{Time}
use lac.Core.Lease.{active}
use lac.Core.Task.{Task, queued, running, failed}
use lac.Store.{Db}
use lac.Store.Agents
use lac.Store.Leases
use lac.Store.Tasks
use lac.Dispatch.Workdir.{FilePath, is_absolute, clean, within, text_of}
use lac.Dispatch.State.{
  Service, Command, Catalogue, Action, Round, Outcome, finished, run, and_then, watch_arrivals,
  signal_arrival, wait_loop,
}

pub record SubmitRequest : Type 0 where
  pub requester_id : String
  pub command_key : String
  pub workdir : String

-- The directory that was asked for, or the requester's own.
unfoldable pub asked_workdir : SubmitRequest → Tx Db String
asked_workdir request =
    if request.workdir == ""
    then (do requester ← Agents.by_id request.requester_id; return requester.workdir)
    else return request.workdir

-- Whether the roots allow the directory; no roots allow any.
unfoldable pub allowed : List String → FilePath → Bool
allowed [] cleaned = true
allowed (r ∷ roots) cleaned = exists (λ root. within cleaned (clean root)) (r ∷ roots)

-- `resolveWorkdir`.
unfoldable pub resolve_workdir : List String → SubmitRequest → Tx Db String
resolve_workdir roots request = do
  workdir ← asked_workdir request
  require (is_absolute workdir) invalid_argument
  require (allowed roots (clean workdir)) unauthorised
  return (text_of (clean workdir))

-- The task that `Submit` queues.
unfoldable pub task_for : SubmitRequest → Command → String → String → Time → Task
task_for request command workdir task_id now = record {
  id = task_id;
  resource_name = command.resource;
  command_key = command.key;
  workdir = workdir;
  requester_id = request.requester_id;
  worker_id = "";
  lease_id = "";
  state = queued;
  exit_code = pos 0;
  output = "";
  failure = "";
  submitted_at = now;
  started_at = none;
  finished_at = none;
}

-- `Submit` once the command is known.
unfoldable pub submit_command : SubmitRequest → Command → String → Time → Action Task
submit_command request command task_id now s =
    and_then (run (resolve_workdir s.workdir_roots request) s) λ workdir s1.
      let task = task_for request command workdir task_id now in
      and_then (run (Tasks.create task) s1) λ _ s2. (ok task, signal_arrival command.resource s2)

-- `Submit`.
unfoldable pub submit : SubmitRequest → String → Time → Action Task
submit request task_id now s = elim (s.catalogue.command request.command_key) [
  | none ↦ (err not_found, s)
  | some command ↦ submit_command request command task_id now s
]

pub record Claimed : Type 0 where
  pub task : Task
  pub command : Command

-- What a look at the queue that may find nothing answers.
unfoldable pub unless_absent :
    {A : Type 0} → Result A × Service → Result (Option (Unit {0})) × Service
unless_absent (ok a, s) = (ok (some tt), s)
unless_absent (err not_found, s) = (ok none, s)
unless_absent (err e, s) = (err e, s)

-- `WaitForWork`.
unfoldable pub wait_for_work : String → List Round → Service → Outcome (Unit {0}) × Service
wait_for_work resource_name =
    wait_loop (watch_arrivals resource_name)
      (λ now s. unless_absent (run (Tasks.next_queued resource_name) s)) none

unfoldable pub started : Task → String → String → Time → Task
started task worker_id lease_id now = record task {
  state = running;
  worker_id = worker_id;
  lease_id = lease_id;
  started_at = some now;
}

-- What the transaction of `tryClaim` does with the oldest task: a task whose command is gone from the
-- catalogue fails, and any other is claimed.
unfoldable pub take_on : Option Command → Task → String → String → Time → Tx Db (Option Claimed)
take_on none task worker_id lease_id now = do
  Tasks.finish task.id failed (negsuc 0)
      ("the command \"" ^^ task.command_key ^^ "\" is no longer configured on this machine") now
  return none
take_on (some command) task worker_id lease_id now = do
  Tasks.claim task.id worker_id lease_id now
  return (some (record { task = started task worker_id lease_id now; command = command }))

-- The transaction of `tryClaim`.
unfoldable pub try_claim_tx : Catalogue → String → String → String → Time → Tx Db (Option Claimed)
try_claim_tx catalogue resource_name worker_id lease_id now = do
  task ← Tasks.next_queued resource_name
  take_on (catalogue.command task.command_key) task worker_id lease_id now

-- A claim that found nothing, lost a race, or names no task is no claim.
unfoldable pub settled : Result (Option Claimed) × Service → Result (Option Claimed) × Service
settled (ok none, s) = (ok none, s)
settled (ok (some c), s) = if c.task.id == "" then (ok none, s) else (ok (some c), s)
settled (err not_found, s) = (ok none, s)
settled (err conflict, s) = (ok none, s)
settled (err e, s) = (err e, s)

-- `tryClaim`.
unfoldable pub try_claim : String → String → String → Time → Action (Option Claimed)
try_claim resource_name worker_id lease_id now s =
    settled (run (try_claim_tx s.catalogue resource_name worker_id lease_id now) s)

-- `verifyLease`.
unfoldable pub verify_lease : String → String → String → Time → Tx Db (Unit {0})
verify_lease resource_name worker_id lease_id now = do
  lease ← Leases.lease_by_id lease_id
  require (lease.agent_id == worker_id) unauthorised
  require (lease.resource_name == resource_name) invalid_argument
  require (active lease now) conflict

abbrev pub at_once : Bool → Option Error
at_once true = some not_found
at_once false = none

-- `Claim` for a lease that was verified, or not.
unfoldable pub claim_verified :
    String
    → String
    → String
    → Bool
    → List Round
    → Result (Unit {0}) × Service
    → Outcome Claimed × Service
claim_verified resource_name worker_id lease_id no_wait rounds (err e, s) = (finished (err e), s)
claim_verified resource_name worker_id lease_id no_wait rounds (ok _, s) =
    wait_loop (watch_arrivals resource_name) (try_claim resource_name worker_id lease_id)
      (at_once no_wait) rounds s

-- `Claim`.
unfoldable pub claim :
    String → String → String → Bool → Time → List Round → Service → Outcome Claimed × Service
claim resource_name worker_id lease_id no_wait now rounds s =
    if lease_id == ""
    then (finished (err invalid_argument), s)
    else claim_verified resource_name worker_id lease_id no_wait rounds
        (run (verify_lease resource_name worker_id lease_id now) s)
