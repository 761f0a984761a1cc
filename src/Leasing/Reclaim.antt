-- ===== src/Leasing/Reclaim.antt =====
-- service/leasing/leasing.go: taking back what an agent or a resource holds, and what has expired.
use lac.Base.{ℕ, zero, suc, String, ◌^^◌}
use lac.Base.Result.{Tx, ok, ◌>>=◌, ◌>>◌, return, for_each}
use lac.Core.Time.{Time}
use lac.Core.Lease.{Lease, QueueEntry, cancelled}
use lac.Core.Audit.{AuditAction, lease_released, lease_expired, queue_cancelled, system_actor}
use lac.Store.{Db}
use lac.Store.Resources
use lac.Store.Queue
use lac.Store.Leases
use lac.Store.AuditLog
use lac.Leasing.State.{Service, Action, run, and_then, signal, signal_all}

-- A round of the loops that release leases, with an audit entry for each.
unfoldable pub release_one :
    String → AuditAction → (Lease → String) → (Lease → String) → Time → Lease → Tx Db (Unit {0})
release_one actor action target detail now lease = do
  Leases.release lease.id now
  AuditLog.append (record {
    actor = actor;
    action = action;
    target = target lease;
    detail = detail lease;
    at = now;
  })

-- A round of the loop that cancels the entries of a departed agent, which writes no audit entry.
unfoldable pub cancel_one : Time → QueueEntry → Tx Db (Unit {0})
cancel_one now entry = Queue.resolve_queue_entry entry.id cancelled now

-- The transaction of `ReleaseEverythingHeldBy`.
unfoldable pub release_everything_tx : String → String → String → Time → Tx Db ℕ
unfolding release_one cancel_one
release_everything_tx actor agent_id reason now = do
  leases ← Leases.active_leases_by_agent agent_id now
  released ←
      for_each
        (release_one actor lease_released (λ lease. lease.resource_name)
          (λ lease. "lease " ^^ lease.id ^^ " reclaimed: " ^^ reason) now)
        leases
  entries ← Queue.waiting_by_agent agent_id
  for_each (cancel_one now) entries
  return released

-- `ReleaseEverythingHeldBy`.
unfoldable pub release_everything_held_by : String → String → String → Time → Action ℕ
release_everything_held_by actor agent_id reason now s =
    and_then (run (release_everything_tx actor agent_id reason now) s)
      λ released s'. (ok released, signal_all s')

unfoldable pub forced_from : Lease → String
forced_from lease = "lease " ^^ lease.id ^^ " force-released from " ^^ lease.agent_id

-- The transaction of `FreeResource`.
unfoldable pub free_resource_tx : String → String → Time → Tx Db ℕ
unfolding release_one forced_from
free_resource_tx actor_id resource_name now = do
  Resources.by_name resource_name
  leases ← Leases.active_leases resource_name now
  for_each (release_one actor_id lease_released (λ _. resource_name) forced_from now) leases

-- `FreeResource`.
unfoldable pub free_resource : String → String → Time → Action ℕ
free_resource actor_id resource_name now s =
    and_then (run (free_resource_tx actor_id resource_name now) s)
      λ released s'. (ok released, signal resource_name s')

-- A round of the loop of `ClearQueue`.
unfoldable pub clear_one : String → String → Time → QueueEntry → Tx Db (Unit {0})
clear_one actor_id resource_name now entry = do
  Queue.resolve_queue_entry entry.id cancelled now
  AuditLog.append (record {
    actor = actor_id;
    action = queue_cancelled;
    target = resource_name;
    detail = "entry " ^^ entry.id ^^ " force-cancelled for " ^^ entry.agent_id;
    at = now;
  })

-- The transaction of `ClearQueue`.
unfoldable pub clear_queue_tx : String → String → Time → Tx Db ℕ
unfolding clear_one
clear_queue_tx actor_id resource_name now = do
  Resources.by_name resource_name
  entries ← Queue.waiting resource_name
  for_each (clear_one actor_id resource_name now) entries

-- `ClearQueue`.
unfoldable pub clear_queue : String → String → Time → Action ℕ
clear_queue actor_id resource_name now s =
    and_then (run (clear_queue_tx actor_id resource_name now) s)
      λ cleared s'. (ok cleared, signal resource_name s')

-- The transaction of `ReapExpired`. `format_time` is `Format(time.RFC3339)`.
unfoldable pub reap_expired_tx : (Time → String) → Time → Tx Db ℕ
unfolding release_one
reap_expired_tx format_time now = do
  expired ← Leases.expired_leases now
  for_each
      (release_one system_actor lease_expired (λ lease. lease.resource_name)
        (λ lease.
          "lease "
          ^^ lease.id
          ^^ " held by "
          ^^ lease.agent_id
          ^^ " expired at "
          ^^ format_time lease.expires_at)
        now)
      expired

unfoldable pub signal_reaped : ℕ → Service → Service
signal_reaped zero s = s
signal_reaped (suc reclaimed) s = signal_all s

-- `ReapExpired`.
unfoldable pub reap_expired : (Time → String) → Time → Action ℕ
reap_expired format_time now s =
    and_then (run (reap_expired_tx format_time now) s)
      λ reclaimed s'. (ok reclaimed, signal_reaped reclaimed s')
