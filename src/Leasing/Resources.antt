-- ===== src/Leasing/Resources.antt =====
-- service/leasing/leasing.go: defining resources and describing them and their queues.
use lac.Base.{String, none, some, List, [], ◌∷◌, pos, le_ℤ, length, if◌then◌else◌}
use lac.Base.Result.{Tx, Result, ok, err, not_found, ◌>>=◌, return}
use lac.Core.Time.{Time}
use lac.Core.Resource.{Resource, ResourceStatus}
use lac.Core.Lease.{Lease, QueueEntry}
use lac.Core.Audit.{resource_defined}
use lac.Store.{Db}
use lac.Store.Resources
use lac.Store.Queue
use lac.Store.Leases
use lac.Leasing.State.{Service, Action, run, and_then, signal, audit}

-- The resource that `Define` stores: with the default time to live and the clock put in.
unfoldable pub completed : Service → Time → Resource → Resource
completed s now resource = record resource {
  lease_time_to_live =
      if le_ℤ resource.lease_time_to_live (pos 0)
      then s.default_time_to_live
      else resource.lease_time_to_live;
  created_at = elim resource.created_at [ none ↦ some now | some t ↦ some t ];
}

-- `Define`. `detail` is the audit entry's text, which is formatted from the resource.
unfoldable pub define : (Resource → String) → String → Resource → Time → Action (Unit {0})
unfolding completed
define detail actor_id resource now s =
    let r = completed s now resource in
    and_then (run (Resources.define now r) s)
      λ _ s'. (ok tt, signal r.name (audit actor_id resource_defined r.name (detail r) now s'))

-- `Resource`.
unfoldable pub resource : String → Action Resource
resource name = run (Resources.by_name name)

status_of : Resource → Time → Tx Db ResourceStatus
status_of r now = do
  held ← Leases.count_active_leases r.name now
  entries ← Queue.waiting r.name
  return (record { resource = r; active_leases = held; waiting = length entries })

-- `Status`.
unfoldable pub status : String → Time → Action ResourceStatus
unfolding status_of
status name now = run (do r ← Resources.by_name name; status_of r now)

statuses_of : List Resource → Time → Tx Db (List ResourceStatus)
unfolding status_of
statuses_of [] now = return []
statuses_of (r ∷ rs) now = do s ← status_of r now; rest ← statuses_of rs now; return (s ∷ rest)

-- `List`.
unfoldable pub list : Time → Action (List ResourceStatus)
unfolding statuses_of
list now = run (do rs ← Resources.list; statuses_of rs now)

-- `Queue`.
unfoldable pub queue : String → Action (List QueueEntry)
queue resource_name = run (Queue.waiting resource_name)

pub record Held : Type 0 where
  pub lease : Lease
  pub reason : String

-- The reason of the entry that a lease came from; a lease whose entry is gone has none.
reason_of : Result (QueueEntry × Db) → Db → Result (String × Db)
reason_of (ok (entry, db')) db = ok (entry.reason, db')
reason_of (err not_found) db = ok ("", db)
reason_of (err e) db = err e

holdings_of : List Lease → Tx Db (List Held)
unfolding reason_of
holdings_of [] = return []
holdings_of (l ∷ ls) = do
  reason ← (λ db. reason_of (Queue.queue_entry_by_id l.queue_entry_id db) db)
  rest ← holdings_of ls
  return (record { lease = l; reason = reason } ∷ rest)

-- `Holders`.
unfoldable pub holders : String → Time → Action (List Held)
unfolding holdings_of
holders resource_name now = run (do ls ← Leases.active_leases resource_name now; holdings_of ls)

-- `Held`.
unfoldable pub held : String → Time → Action (List Lease)
held agent_id now = run (Leases.active_leases_by_agent agent_id now)
