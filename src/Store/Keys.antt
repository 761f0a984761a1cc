-- ===== src/Store/Keys.antt =====
-- The keys of the tables of queue entries and leases, and how often a request can be granted.
use lac.Base.{
  count_where-none, count_where-update_where-same, ℕ, ◌+◌, ◌≤◌, String, ◌==◌, Bool, false, Option,
  none, some, [], ◌∷◌, ◌++◌, ◌≡◌, refl, arith, count_where, count_where-append,
  count_where-update_where-le, update_where, eq_iff,
}
use lac.Base.Result.{ok, run_tx}
use lac.Base.Ensures.{Ensures, IsPreorder, ensures_rules, Ensures-exec}
use lac.Core.Time.{Time}
use lac.Core.Resource.{Resource}
use lac.Core.Lease.{QueueEntry, QueueEntryState, is_waiting}
use lac.Core.Audit.{AuditEntry}
use lac.Store.{Db}
use lac.Store.Queue
use lac.Store.Queue.{enqueue, resolve_queue_entry, still_waiting, resolve_row}
use lac.Store.Leases
use lac.Store.Leases.{release_row, extend_row}
use lac.Store.Resources
use lac.Store.AuditLog.{append}

-- Whether a lease was made for the queue entry.
abbrev pub is_for : Option String → String → Bool
is_for none id = false
is_for (some entry_id) id = entry_id == id

abbrev pub entries_of : String → Db → ℕ
entries_of id s = count_where (λ q. q.id == id) s.queue_entries

abbrev pub waiting_of : String → Db → ℕ
waiting_of id s = count_where (still_waiting id) s.queue_entries

abbrev pub leases_with : String → Db → ℕ
leases_with id s = count_where (λ l. l.id == id) s.leases

abbrev pub leases_for : String → Db → ℕ
leases_for id s = count_where (λ l. is_for l.queue_entry_id id) s.leases

-- One queue entry and one lease have the identifier; and at most one lease was made for that entry,
-- none while it waits.
pub record Keys (id : String) (s : Db) : Type 0 where
  pub entry : entries_of id s ≤ 1
  pub lease : leases_with id s ≤ 1
  pub once : leases_for id s + waiting_of id s ≤ entries_of id s

unfoldable pub KeepsKeys : String → Db → Db → Type 0
KeepsKeys id s t = Keys id s → Keys id t

pub KeepsKeys-IsPreorder : (id : String) → IsPreorder (KeepsKeys id)
unfolding KeepsKeys
KeepsKeys-IsPreorder id = record { rel_refl = λ s h. h; rel_trans = λ s t u p q h. q (p h) }

-- A statement after which no count has grown, and the entries are as many as before.
KeepsKeys-counts :
    (id : String) (s t : Db)
    → entries_of id t ≡ entries_of id s
    → waiting_of id t ≤ waiting_of id s
    → leases_with id t ≤ leases_with id s
    → leases_for id t ≤ leases_for id s
    → KeepsKeys id s t
unfolding KeepsKeys
KeepsKeys-counts id s t e w l f h = record {
  entry = omega (arith, e, h.entry);
  lease = omega (arith, l, h.lease);
  once = omega (arith, e, w, f, h.once);
}

KeepsKeys-same :
    (id : String) (s t : Db)
    → t.queue_entries ≡ s.queue_entries
    → t.leases ≡ s.leases
    → KeepsKeys id s t
unfolding KeepsKeys
KeepsKeys-same id s t q l h = record {
  entry = rw q h.entry;
  lease = rw l h.lease;
  once = rw (q, l) h.once;
}

pub append-KeepsKeys : (id : String) (e : AuditEntry) → Ensures (KeepsKeys id) (append e)
unfolding append
append-KeepsKeys id e = search (ensures_rules, KeepsKeys-IsPreorder, Ensures-exec, KeepsKeys-same)

pub define-KeepsKeys :
    (id : String) (now : Time) (r : Resource) → Ensures (KeepsKeys id) (Resources.define now r)
unfolding Resources.define
define-KeepsKeys id now r =
    search (ensures_rules, KeepsKeys-IsPreorder, Ensures-exec, KeepsKeys-same) depth 20

resolve-KeepsKeys-at :
    (id entry_id : String) (state : QueueEntryState) (at : Time) (s : Db)
    → is_waiting state ≡ false
    → KeepsKeys id s (record s {
      queue_entries = update_where (still_waiting entry_id) (resolve_row state at) s.queue_entries;
    })
unfolding still_waiting resolve_row
resolve-KeepsKeys-at id entry_id state at s final =
    KeepsKeys-counts id _ _
      (count_where-update_where-same (λ q. q.id == id) _ _ s.queue_entries (λ q. refl))
      (count_where-update_where-le (still_waiting id) (still_waiting id) _ _ s.queue_entries
        (λ q h. h) (λ q h k. ground arith))
      (omega arith) (omega arith)

resolve_effect :
    (entry_id : String) (state : QueueEntryState) (at : Time) (s t : Db) (u : Unit {0})
    → resolve_queue_entry entry_id state at s ≡ ok (u, t)
    → (is_waiting state ≡ false)
      × (t ≡ record s {
        queue_entries =
            update_where (still_waiting entry_id) (resolve_row state at) s.queue_entries;
      })
unfolding resolve_queue_entry run_tx
resolve_effect entry_id state at s t u e = ground arith

pub resolve_queue_entry-KeepsKeys :
    (id entry_id : String) (state : QueueEntryState) (at : Time)
    → Ensures (KeepsKeys id) (resolve_queue_entry entry_id state at)
resolve_queue_entry-KeepsKeys id entry_id state at = record {
  at = λ s t u e.
      let (final, same) = resolve_effect entry_id state at s t u e in
      rw same (resolve-KeepsKeys-at id entry_id state at s final);
}

enqueue_effect :
    (e : QueueEntry) (s t : Db) (u : Unit {0})
    → enqueue e s ≡ ok (u, t)
    → (entries_of e.id s ≡ 0)
      × (t ≡ record s { queue_entries = s.queue_entries ++ Queue.row_of e ∷ [] })
unfolding enqueue run_tx
enqueue_effect e s t u h = ground (arith, count_where-none (λ q. q.id == e.id) s.queue_entries)

enqueue-KeepsKeys-at :
    (id : String) (e : QueueEntry) (s : Db)
    → entries_of e.id s ≡ 0
    → KeepsKeys id s (record s { queue_entries = s.queue_entries ++ Queue.row_of e ∷ [] })
unfolding KeepsKeys count_where still_waiting Queue.row_of
enqueue-KeepsKeys-at id e s fresh h = record {
  entry = ground (
    arith,
    h.entry,
    eq_iff e.id id,
    count_where-append (λ q. q.id == id) s.queue_entries (Queue.row_of e ∷ []),
  );
  lease = h.lease;
  once = ground (
    arith,
    h.once,
    count_where-append (λ q. q.id == id) s.queue_entries (Queue.row_of e ∷ []),
    count_where-append (still_waiting id) s.queue_entries (Queue.row_of e ∷ []),
  );
}

pub enqueue-KeepsKeys : (id : String) (e : QueueEntry) → Ensures (KeepsKeys id) (enqueue e)
enqueue-KeepsKeys id e = record {
  at = λ s t u h.
      let (fresh, same) = enqueue_effect e s t u h in rw same (enqueue-KeepsKeys-at id e s fresh);
}

pub release-KeepsKeys :
    (id lease_id : String) (now : Time) → Ensures (KeepsKeys id) (Leases.release lease_id now)
unfolding Leases.release release_row
release-KeepsKeys id lease_id now = Ensures-exec {R = KeepsKeys id} _ λ s.
    KeepsKeys-counts id _ _ refl (omega arith)
      (omega (
        arith,
        count_where-update_where-same (λ l. l.id == id) _ (release_row now) s.leases (λ l. refl),
      ))
      (omega (
        arith,
        count_where-update_where-same (λ l. is_for l.queue_entry_id id) _ (release_row now) s.leases
            (λ l. refl),
      ))

extend-KeepsKeys :
    (id lease_id : String) (until now : Time) (s : Db)
    → KeepsKeys id s (record s {
      leases = update_where (Leases.renewable lease_id now) (extend_row until) s.leases;
    })
unfolding extend_row
extend-KeepsKeys id lease_id until now s =
    KeepsKeys-counts id _ _ refl (omega arith)
      (omega (
        arith,
        count_where-update_where-same (λ l. l.id == id) _ (extend_row until) s.leases (λ l. refl),
      ))
      (omega (
        arith,
        count_where-update_where-same (λ l. is_for l.queue_entry_id id) _ (extend_row until)
            s.leases (λ l. refl),
      ))

pub renew-KeepsKeys :
    (id lease_id : String) (until now : Time)
    → Ensures (KeepsKeys id) (Leases.renew lease_id until now)
unfolding Leases.renew Leases.lease_by_id
renew-KeepsKeys id lease_id until now =
    search (ensures_rules, KeepsKeys-IsPreorder, Ensures-exec, extend-KeepsKeys) depth 20
