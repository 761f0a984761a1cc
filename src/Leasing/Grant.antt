-- ===== src/Leasing/Grant.antt =====
-- service/leasing/leasing.go: `tryGrant`, which takes a slot for the head of the queue.
use lac.Base.{
  ℕ, String, ◌^^◌, ◌==◌, Bool, false, not, ◌||◌, Option, none, some, List, [], ◌∷◌, pos, le_ℤ,
  if◌then◌else◌,
}
use lac.Base.Result.{Tx, ok, conflict, ◌>>=◌, ◌>>◌, return, require}
use lac.Core.Time.{Time, add_duration}
use lac.Core.Resource.{Resource}
use lac.Core.Lease.{Lease, QueueEntry, granted, is_waiting}
use lac.Core.Audit.{lease_granted}
use lac.Store.{Db}
use lac.Store.Resources
use lac.Store.Queue
use lac.Store.Leases
use lac.Store.AuditLog
use lac.Leasing.State.{Service, Action, run, and_then, signal}

-- `len(waiting) > 0 && waiting[0].ID == entry.ID`.
unfoldable pub is_head : String → List QueueEntry → Bool
is_head entry_id [] = false
is_head entry_id (q ∷ rest) = q.id == entry_id

unfoldable pub lease_for : QueueEntry → Resource → List ℕ → String → Time → Lease
lease_for entry resource metadata lease_id now = record {
  id = lease_id;
  resource_name = resource.name;
  agent_id = entry.agent_id;
  queue_entry_id = entry.id;
  acquired_at = now;
  expires_at = add_duration now resource.lease_time_to_live;
  released_at = none;
  metadata = metadata;
}

-- The writes of a grant.
unfoldable pub grant : QueueEntry → Resource → Lease → Time → Tx Db (Option Lease)
grant entry resource lease now = do
  Leases.create_lease lease
  Queue.resolve_queue_entry entry.id granted now
  AuditLog.append (record {
    actor = entry.agent_id;
    action = lease_granted;
    target = resource.name;
    detail = "lease " ^^ lease.id;
    at = now;
  })
  return (some lease)

-- The transaction of `tryGrant`; `none` where there is no room, or another entry is the head.
unfoldable pub try_grant_tx : QueueEntry → List ℕ → String → Time → Tx Db (Option Lease)
try_grant_tx entry metadata lease_id now = do
  current ← Queue.queue_entry_by_id entry.id
  require (is_waiting current.state) conflict
  resource ← Resources.by_name entry.resource_name
  held ← Leases.count_active_leases resource.name now
  waiting ← Queue.waiting resource.name
  if le_ℤ resource.capacity (pos held) || not (is_head entry.id waiting)
      then return none
      else grant entry resource (lease_for entry resource metadata lease_id now) now

-- A grant wakes the others: there may be room left for the next in line.
unfoldable pub signal_grant : String → Option Lease → Service → Service
signal_grant resource_name none s = s
signal_grant resource_name (some lease) s = signal resource_name s

unfoldable pub try_grant : QueueEntry → List ℕ → String → Time → Action (Option Lease)
try_grant entry metadata lease_id now s =
    and_then (run (try_grant_tx entry metadata lease_id now) s)
      λ lease s'. (ok lease, signal_grant entry.resource_name lease s')
