-- ===== src/Leasing/Once.antt =====
-- How often a request is granted, and the keys of the tables, over every history.
use lac.Base.{
  count_where-none, count_where-exists, count_where-update_where-same, ℕ, zero, suc, ◌≤◌, String,
  ◌==◌, true, false, List, [], ◌∷◌, ◌++◌, ◌≡◌, refl, arith, count_where, count_where-append,
  count_where-update_where-le, exists, update_where, inl, inr, eq_iff, Bool-cases, if◌then◌else◌,
}
use lac.Base.Ensures.{Ensures}
use lac.Core.Time.{Time}
use lac.Core.Resource.{Resource}
use lac.Core.Lease.{Lease, QueueEntry, granted}
use lac.Store.{Db, QueueRow, scan_resource, null_string}
use lac.Store.Queue.{still_waiting, resolve_row}
use lac.Store.Leases
use lac.Store.Keys.{
  Keys, KeepsKeys, KeepsKeys-IsPreorder, append-KeepsKeys, define-KeepsKeys,
  resolve_queue_entry-KeepsKeys, enqueue-KeepsKeys, release-KeepsKeys, renew-KeepsKeys, entries_of,
  waiting_of, leases_with, leases_for, is_for,
}
use lac.Leasing.State.{Service}
use lac.Leasing.Grant.{try_grant_tx, lease_for}
use lac.Leasing.GrantCases.{try_grant_cases, grant_effect, granted_db}
use lac.Leasing.Transactions.{Statements}
use lac.Leasing.Events.{Event, defines, attempts, apply, replay}
use lac.Leasing.EventRelations.{Covers, apply-rel}

KeepsKeys-Statements : (id : String) (now : Time) → Statements (KeepsKeys id) now
KeepsKeys-Statements id now = record {
  preorder = KeepsKeys-IsPreorder id;
  appends = append-KeepsKeys id;
  resolves = λ entry_id state. resolve_queue_entry-KeepsKeys id entry_id state now;
  enqueues = enqueue-KeepsKeys id;
  releases = λ lease_id. release-KeepsKeys id lease_id now;
  renews = λ lease_id until. renew-KeepsKeys id lease_id until now;
}

-- The entry that is resolved no longer waits.
count_where-resolved :
    (id : String) (now : Time) (rows : List QueueRow)
    → count_where
        (still_waiting id)
        (update_where (still_waiting id) (resolve_row granted now) rows)
      ≡ 0
unfolding count_where update_where still_waiting resolve_row
count_where-resolved id now [] = refl
count_where-resolved id now (q ∷ rows) = ground (arith, count_where-resolved id now rows)

-- A lease more, with a fresh identifier.
leases_with-granted :
    (id : String) (lease : Lease) (s : Db)
    → exists (λ l. l.id == lease.id) s.leases ≡ false
    → leases_with id s ≤ 1
    → count_where (λ l. l.id == id) (s.leases ++ Leases.row_of lease ∷ []) ≤ 1
unfolding Leases.row_of count_where
leases_with-granted id lease s fresh h = ground (
  arith,
  eq_iff lease.id id,
  count_where-none (λ l. l.id == lease.id) s.leases fresh,
  count_where-append (λ l. l.id == id) s.leases (Leases.row_of lease ∷ []),
)

-- A lease more counts for its own queue entry alone.
leases_for-granted :
    (id : String) (lease : Lease) (s : Db)
    → count_where (λ l. is_for l.queue_entry_id id) (s.leases ++ Leases.row_of lease ∷ [])
      ≤ (if lease.queue_entry_id == id then suc (leases_for id s) else leases_for id s)
unfolding Leases.row_of count_where null_string
leases_for-granted id lease s = ground (
  arith,
  count_where-append (λ l. is_for l.queue_entry_id id) s.leases (Leases.row_of lease ∷ []),
)

entries_of-granted :
    (id entry_id : String) (now : Time) (s : Db)
    → count_where
        (λ q. q.id == id)
        (update_where (still_waiting entry_id) (resolve_row granted now) s.queue_entries)
      ≡ entries_of id s
unfolding resolve_row
entries_of-granted id entry_id now s =
    count_where-update_where-same (λ q. q.id == id) _ (resolve_row granted now) s.queue_entries
      (λ q. refl)

waiting_of-granted :
    (id entry_id : String) (now : Time) (s : Db)
    → count_where
        (still_waiting id)
        (update_where (still_waiting entry_id) (resolve_row granted now) s.queue_entries)
      ≤ waiting_of id s
unfolding resolve_row still_waiting
waiting_of-granted id entry_id now s =
    count_where-update_where-le (still_waiting id) (still_waiting id) _ _ s.queue_entries (λ q h. h)
      (λ q h k. ground arith)

granted-Keys :
    (id : String) (entry : QueueEntry) (r : Resource) (lease : Lease) (now : Time) (s : Db)
    → lease.queue_entry_id ≡ entry.id
    → exists (λ l. l.id == lease.id) s.leases ≡ false
    → exists (still_waiting entry.id) s.queue_entries ≡ true
    → Keys id s
    → Keys id (granted_db entry r lease now s)
granted-Keys id entry r lease now s named fresh waits h = record {
  entry = omega (arith, entries_of-granted id entry.id now s, h.entry);
  lease = leases_with-granted id lease s fresh h.lease;
  once = elim (Bool-cases (entry.id == id)) [
    | inl e ↦
        let same : entry.id ≡ id = (eq_iff entry.id id).0 e in
        let done : count_where (still_waiting id)
              (update_where (still_waiting entry.id) (resolve_row granted now) s.queue_entries)
            ≡ 0 =
          rw (← same) (count_where-resolved entry.id now s.queue_entries) in
        let waited : suc zero ≤ waiting_of id s =
          rw (← same) (count_where-exists (still_waiting entry.id) s.queue_entries waits) in
        ground (
          arith,
          h.once,
          h.entry,
          leases_for-granted id lease s,
          entries_of-granted id entry.id now s,
        )
    | inr e ↦ ground (
      arith,
      h.once,
      leases_for-granted id lease s,
      entries_of-granted id entry.id now s,
      waiting_of-granted id entry.id now s,
    )
  ];
}

try_grant_tx-KeepsKeys :
    (id : String) (entry : QueueEntry) (metadata : List ℕ) (lease_id : String) (now : Time)
    → Ensures (KeepsKeys id) (try_grant_tx entry metadata lease_id now)
unfolding KeepsKeys lease_for
try_grant_tx-KeepsKeys id entry metadata lease_id now = record {
  at = λ s t result e h. elim (try_grant_cases entry metadata lease_id now s t result e) [
    | inl (_, same) ↦ rw same h
    | inr g ↦
        let r = scan_resource g.resource in
        let lease = lease_for entry r metadata lease_id now in
        let (_, done, fresh, waits) = grant_effect entry r lease now s t result g.writes in
        rw done (granted-Keys id entry r lease now s refl fresh waits h)
  ];
}

Covers-KeepsKeys : (id : String) (now : Time) (e : Event) → Covers (KeepsKeys id) now e
Covers-KeepsKeys id now (defines actor r) = λ r' same capacity. define-KeepsKeys id now r'
Covers-KeepsKeys id now (attempts entry metadata lease_id) =
    try_grant_tx-KeepsKeys id entry metadata lease_id now
Covers-KeepsKeys id now _ = tt

-- A request is granted at most once. Over any history, if one queue entry and one lease at most have
-- the identifier and the entry was granted at most one lease, and none while it waits, then the same
-- holds at the end: no race of attempts, retries and cancellations gives one request two leases.
pub request_is_granted_at_most_once :
    (describe : Resource → String) (format_time : Time → String) (events : List (Time × Event))
    (s : Service) (id : String)
    → Keys id s.db
    → Keys id (replay describe format_time events s).db
unfolding replay KeepsKeys
request_is_granted_at_most_once describe format_time [] s id h = h
request_is_granted_at_most_once describe format_time ((now, e) ∷ es) s id h =
    request_is_granted_at_most_once describe format_time es (apply describe format_time now e s) id
      (apply-rel describe format_time now (KeepsKeys-Statements id now) e s
        (Covers-KeepsKeys id now e) h)
