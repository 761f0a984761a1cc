-- ===== src/Leasing/Fairness.antt =====
-- The queue is fair: only the head takes a slot, and the head takes it when there is room.
use lac.Base.{
  ℕ, ◌<◌, String, ◌==◌, true, false, some, List, [], ◌∷◌, ◌≡◌, refl, map, arith, All, All-select,
  All-order_by, order_by-All, order_by-IsOrdered, IsOrdered, find, find-test, select, inl, inr,
  eq_iff, exists,
}
use lac.Base.Result.{ok}
use lac.Core.Time.{Time}
use lac.Core.Lease.{Lease, QueueEntry}
use lac.Store.{Db, QueueRow, ResourceRow, scan_queue_entry}
use lac.Store.Resources
use lac.Store.Queue
use lac.Store.Queue.{served_before, waiting_for, waiting_rows}
use lac.Store.Leases
use lac.Store.Leases.{count_active}
use lac.Store.AuditLog
use lac.Store.ServiceOrder.{served_before-asymm, served_before-ge_trans}
use lac.Leasing.Grant.{try_grant_tx, is_head}
use lac.Leasing.GrantCases.{try_grant_cases}

-- A waiting entry of the resource before which no waiting entry of it is served.
pub record IsNext (n : String) (id : String) (s : Db) (q : QueueRow) : Type 0 where
  pub named : (q.id == id) ≡ true
  pub queued : waiting_for n q ≡ true
  pub first : All (λ w. served_before w q ≡ false) (select (waiting_for n) s.queue_entries)

head-IsNext :
    (n id : String) (s : Db) (rows : List QueueRow)
    → waiting_rows n s ≡ rows
    → is_head id (map scan_queue_entry rows) ≡ true
    → (q : QueueRow) × IsNext n id s q
unfolding is_head scan_queue_entry waiting_rows
head-IsNext n id s [] e h = absurd (ground arith)
head-IsNext n id s (q ∷ rest) e h = (
  q,
  record {
    named = h;
    queued =
        (rw e at
          (All-order_by served_before _ selected (All-select (waiting_for n) s.queue_entries))).0;
    first =
        order_by-All served_before (λ w. served_before w q ≡ false) selected
          (rw e (itself, (rw e at ordered).0));
  },
)
  where
    selected : List QueueRow
    selected = select (waiting_for n) s.queue_entries

    ordered : IsOrdered served_before (waiting_rows n s)
    ordered = order_by-IsOrdered served_before served_before-asymm served_before-ge_trans selected

    itself : served_before q q ≡ false
    itself = ground (arith, served_before-asymm q q)

-- When `tryGrant` gives the entry a lease, the entry is the next to be served: it waits for the
-- resource, no waiting entry of that resource has a higher priority, or the same and an earlier
-- request; and before the grant fewer leases were active than the resource has slots.
pub only_the_head_is_granted :
    (entry : QueueEntry) (metadata : List ℕ) (lease_id : String) (now : Time) (s t : Db)
    (lease : Lease)
    → try_grant_tx entry metadata lease_id now s ≡ ok (some lease, t)
    → ((q : QueueRow) × IsNext entry.resource_name entry.id s q)
      × ((r : ResourceRow) × (find (λ r'. r'.name == entry.resource_name) s.resources ≡ some r)
          × (count_active entry.resource_name now s < r.capacity))
only_the_head_is_granted entry metadata lease_id now s t lease e =
    elim (try_grant_cases entry metadata lease_id now s t (some lease) e) [
      | inl (no_lease, _) ↦ absurd (ground arith)
      | inr g ↦
          let same : g.resource.name ≡ entry.resource_name =
            (eq_iff _ _).0 (find-test _ s.resources g.defined) in
          (
            rw (← same) (head-IsNext g.resource.name entry.id s _ refl g.head),
            (g.resource, g.defined, rw (← same) g.room),
          )
    ]

-- What the writes of a grant need beyond the tests of `tryGrant`: an identifier that is fresh and,
-- like the entry's and the agent's, not empty; an agent on the roster; a positive time to live.
pub record IsGrantable (entry : QueueEntry) (r : ResourceRow) (lease_id : String) (s : Db)
    : Type 0 where
  pub named : (lease_id == "") ≡ false
  pub entry_named : (entry.id == "") ≡ false
  pub agent_named : (entry.agent_id == "") ≡ false
  pub fresh : exists (λ l. l.id == lease_id) s.leases ≡ false
  pub registered : exists (λ a. a.id == entry.agent_id) s.agents ≡ true
  pub lasts : 0 < r.lease_ttl_micros
