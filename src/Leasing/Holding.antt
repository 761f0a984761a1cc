-- ===== src/Leasing/Holding.antt =====
-- service/leasing/leasing.go: renewing and releasing a lease, and leaving a queue.
use lac.Base.{String, ◌^^◌, ◌==◌, Bool, true, false, not, ◌||◌, if◌then◌else◌}
use lac.Base.Result.{Tx, ok, unauthorised, conflict, ◌>>=◌, ◌>>◌, return, require}
use lac.Core.Time.{Time, add_duration}
use lac.Core.Lease.{Lease, cancelled, is_waiting}
use lac.Core.Audit.{lease_renewed, lease_released, queue_cancelled}
use lac.Store.{Db}
use lac.Store.Resources
use lac.Store.Queue
use lac.Store.Leases
use lac.Store.AuditLog
use lac.Leasing.State.{Action, run, and_then, signal}

-- The transaction of `Renew`.
unfoldable pub renew_tx : String → String → Time → Tx Db Lease
renew_tx agent_id lease_id now = do
  lease ← Leases.lease_by_id lease_id
  require (lease.agent_id == agent_id) unauthorised
  resource ← Resources.by_name lease.resource_name
  let expires_at = add_duration now resource.lease_time_to_live
  Leases.renew lease_id expires_at now
  AuditLog.append (record {
    actor = agent_id;
    action = lease_renewed;
    target = lease.resource_name;
    detail = "lease " ^^ lease_id;
    at = now;
  })
  return (record lease { expires_at = expires_at })

-- `Renew`.
unfoldable pub renew : String → String → Time → Action Lease
renew agent_id lease_id now = run (renew_tx agent_id lease_id now)

-- The transaction of `release`; it returns the resource's name.
unfoldable pub release_tx : String → String → Bool → Time → Tx Db String
release_tx agent_id lease_id force now = do
  lease ← Leases.lease_by_id lease_id
  require (force || lease.agent_id == agent_id) unauthorised
  Leases.release lease_id now
  AuditLog.append (record {
    actor = agent_id;
    action = lease_released;
    target = lease.resource_name;
    detail =
        if lease.agent_id == agent_id
        then "lease " ^^ lease_id
        else "lease " ^^ lease_id ^^ " force-released from " ^^ lease.agent_id;
    at = now;
  })
  return lease.resource_name

unfoldable pub release_as : Bool → String → String → Time → Action (Unit {0})
release_as force agent_id lease_id now s =
    and_then (run (release_tx agent_id lease_id force now) s)
      λ resource_name s'. (ok tt, signal resource_name s')

-- `Release`.
unfoldable pub release : String → String → Time → Action (Unit {0})
unfolding release_as
release = release_as false

-- `ForceRelease`.
unfoldable pub force_release : String → String → Time → Action (Unit {0})
unfolding release_as
force_release = release_as true

-- The transaction of `cancel`; it returns the resource's name.
unfoldable pub cancel_tx : String → String → Bool → Time → Tx Db String
cancel_tx agent_id entry_id force now = do
  entry ← Queue.queue_entry_by_id entry_id
  require (force || entry.agent_id == agent_id) unauthorised
  require (not force || is_waiting entry.state) conflict
  Queue.resolve_queue_entry entry_id cancelled now
  AuditLog.append (record {
    actor = agent_id;
    action = queue_cancelled;
    target = entry.resource_name;
    detail =
        if entry.agent_id == agent_id
        then "entry " ^^ entry_id
        else "entry " ^^ entry_id ^^ " force-cancelled for " ^^ entry.agent_id;
    at = now;
  })
  return entry.resource_name

unfoldable pub cancel_as : Bool → String → String → Time → Action (Unit {0})
cancel_as force agent_id entry_id now s =
    and_then (run (cancel_tx agent_id entry_id force now) s)
      λ resource_name s'. (ok tt, signal resource_name s')

-- `Cancel`.
unfoldable pub cancel : String → String → Time → Action (Unit {0})
unfolding cancel_as
cancel = cancel_as false

-- `ForceCancel`.
unfoldable pub force_cancel : String → String → Time → Action (Unit {0})
unfolding cancel_as
force_cancel = cancel_as true
