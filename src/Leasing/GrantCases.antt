-- ===== src/Leasing/GrantCases.antt =====
-- What a successful `tryGrant` found and did.
use lac.Base.{
  ℕ, ◌<◌, String, ◌==◌, true, false, Option, none, some, List, [], ◌∷◌, ◌++◌, ◌^^◌, map, exists,
  update_where, ◌≡◌, ◌⊎◌, inl, inr, arith, find, Option-cases, Bool-cases, leb,
}
use lac.Base.Result.{ok, run_tx}
use lac.Core.Time.{Time}
use lac.Core.Lease.{Lease, QueueEntry, is_waiting, granted}
use lac.Store.{Db, QueueRow, ResourceRow, scan_resource, scan_queue_entry}
use lac.Store.Resources
use lac.Store.Queue
use lac.Store.Queue.{waiting_rows}
use lac.Store.Leases
use lac.Store.Leases.{count_active}
use lac.Store.AuditLog
use lac.Core.Audit.{lease_granted}
use lac.Core.Resource.{Resource}
use lac.Leasing.Grant.{is_head, lease_for, grant, try_grant_tx}

-- The entry waits, its resource has room, it is the head of the queue, and the writes succeeded.
pub record Granting (entry : QueueEntry) (metadata : List ℕ) (lease_id : String) (now : Time)
    (s : Db) (result : Option Lease) (t : Db) : Type 0 where
  pub current : QueueRow
  pub found : find (λ q. q.id == entry.id) s.queue_entries ≡ some current
  pub waits : is_waiting current.state ≡ true
  pub resource : ResourceRow
  pub defined : find (λ r. r.name == entry.resource_name) s.resources ≡ some resource
  pub room : count_active resource.name now s < resource.capacity
  pub head : is_head entry.id (map scan_queue_entry (waiting_rows resource.name s)) ≡ true
  pub writes :
      grant entry
        (scan_resource resource)
        (lease_for entry (scan_resource resource) metadata lease_id now)
        now
        s
      ≡ ok (result, t)

-- A successful attempt either changes nothing and takes no slot, or it grants.
pub try_grant_cases :
    (entry : QueueEntry) (metadata : List ℕ) (lease_id : String) (now : Time) (s t : Db)
    (result : Option Lease)
    → try_grant_tx entry metadata lease_id now s ≡ ok (result, t)
    → ((result ≡ none) × (t ≡ s)) ⊎ Granting entry metadata lease_id now s result t
unfolding try_grant_tx run_tx Queue.queue_entry_by_id Queue.waiting Resources.by_name
    Leases.count_active_leases scan_resource scan_queue_entry
try_grant_cases entry metadata lease_id now s t result e =
    elim (Option-cases (find (λ q. q.id == entry.id) s.queue_entries)) [
      | inl lost ↦ absurd (ground arith)
      | inr (q, fq) ↦ elim (Option-cases (find (λ r. r.name == entry.resource_name) s.resources)) [
        | inl lost ↦ absurd (ground arith)
        | inr (r, fr) ↦ elim (Bool-cases (is_waiting q.state)) [
          | inr gone ↦ absurd (ground arith)
          | inl waits ↦ elim (Bool-cases (leb r.capacity (count_active r.name now s))) [
            | inl full ↦ inl (ground arith)
            | inr room ↦
                elim (Bool-cases
                  (is_head entry.id (map scan_queue_entry (waiting_rows r.name s)))) [
                    | inr other ↦ inl (ground arith)
                    | inl head ↦ inr (record {
                      current = q;
                      found = fq;
                      waits = waits;
                      resource = r;
                      defined = fr;
                      room = ground arith;
                      head = head;
                      writes = ground arith;
                    })
                  ]
          ]
        ]
      ]
    ]

-- The database after the writes of a grant.
abbrev pub granted_db : QueueEntry → Resource → Lease → Time → Db → Db
granted_db entry resource lease now s = record s {
  leases = s.leases ++ Leases.row_of lease ∷ [];
  queue_entries =
      update_where (Queue.still_waiting entry.id) (Queue.resolve_row granted now) s.queue_entries;
  audit_log =
      s.audit_log
      ++ AuditLog.row_of (record {
        actor = entry.agent_id;
        action = lease_granted;
        target = resource.name;
        detail = "lease " ^^ lease.id;
        at = now;
      })
        ∷ [];
}

-- A grant whose writes succeeded: the lease had a fresh identifier, and the entry was waiting.
pub grant_effect :
    (entry : QueueEntry) (resource : Resource) (lease : Lease) (now : Time) (s t : Db)
    (result : Option Lease)
    → grant entry resource lease now s ≡ ok (result, t)
    → (result ≡ some lease)
      × (t ≡ granted_db entry resource lease now s)
      × (exists (λ l. l.id == lease.id) s.leases ≡ false)
      × (exists (Queue.still_waiting entry.id) s.queue_entries ≡ true)
unfolding grant run_tx Leases.create_lease Queue.resolve_queue_entry AuditLog.append
grant_effect entry resource lease now s t result e = ground arith
