-- ===== src/Store/Slots.antt =====
-- How the statements change the number of active leases on each resource.
use lac.Base.{
  ◌≤◌, String, Bool, true, ◌≡◌, refl, arith, count_where_mono, count_where-update_where-le,
  update_where,
}
use lac.Base.Ensures.{Ensures, IsPreorder, Ensures-exec, ensures_rules}
use lac.Core.Time.{Time}
use lac.Core.Lease.{QueueEntry, QueueEntryState}
use lac.Core.Audit.{AuditEntry}
use lac.Store.{Db, LeaseRow}
use lac.Store.Leases.{
  active_on, count_active, renewable, extend_row, release_row, unreleased, renew, release,
  lease_by_id,
}
use lac.Store.Queue.{enqueue, resolve_queue_entry}
use lac.Store.AuditLog.{append}

-- From `now` on no resource has more active leases than it had at `now`, and the definitions of the
-- resources are the same.
pub record Frees (now : Time) (s t : Db) : Type 0 where
  pub counts : (n : String) (at : Time) → now ≤ at → count_active n at t ≤ count_active n now s
  pub resources : t.resources ≡ s.resources

active_on_mono :
    (n : String) (now at : Time) (l : LeaseRow)
    → now ≤ at
    → active_on n at l ≡ true
    → active_on n now l ≡ true
unfolding active_on
active_on_mono n now at l h k = ground arith

pub count_active_mono :
    (n : String) (now at : Time) (s : Db) → now ≤ at → count_active n at s ≤ count_active n now s
unfolding count_active
count_active_mono n now at s h =
    count_where_mono (active_on n at) (active_on n now) s.leases (λ l. active_on_mono n now at l h)

pub Frees-IsPreorder : (now : Time) → IsPreorder (Frees now)
Frees-IsPreorder now = record {
  rel_refl = λ s. record { counts = λ n at h. count_active_mono n now at s h; resources = refl };
  rel_trans = λ s t u p q. record {
    counts = λ n at h. ground (arith, q.counts n at h, p.counts n now (omega arith));
    resources = ground (arith, p.resources, q.resources);
  };
}

-- A statement on other tables.
Frees-same_leases :
    (now : Time) (s t : Db) → t.leases ≡ s.leases → t.resources ≡ s.resources → Frees now s t
unfolding count_active
Frees-same_leases now s t h k = record {
  counts = λ n at le. rw h (
      count_where_mono (active_on n at) (active_on n now) s.leases
        (λ l. active_on_mono n now at l le));
  resources = k;
}

pub append-Frees : (now : Time) (e : AuditEntry) → Ensures (Frees now) (append e)
unfolding append
append-Frees now e = search (ensures_rules, Frees-IsPreorder, Ensures-exec, Frees-same_leases)

pub resolve_queue_entry-Frees :
    (now : Time) (id : String) (state : QueueEntryState) (at : Time)
    → Ensures (Frees now) (resolve_queue_entry id state at)
unfolding resolve_queue_entry
resolve_queue_entry-Frees now id state at =
    search (ensures_rules, Frees-IsPreorder, Ensures-exec, Frees-same_leases)

pub enqueue-Frees : (now : Time) (e : QueueEntry) → Ensures (Frees now) (enqueue e)
unfolding enqueue
enqueue-Frees now e =
    search (ensures_rules, Frees-IsPreorder, Ensures-exec, Frees-same_leases) depth 20

-- An update that makes no lease active from `now` on that was not active at `now`.
Frees-update_where :
    (now : Time) (test : LeaseRow → Bool) (f : LeaseRow → LeaseRow) (s : Db)
    → ((n : String) (at : Time) (l : LeaseRow)
        → now ≤ at
        → test l ≡ true
        → active_on n at (f l) ≡ true
        → active_on n now l ≡ true)
    → Frees now s (record s { leases = update_where test f s.leases })
unfolding count_active
Frees-update_where now test f s h = record {
  counts = λ n at le.
      count_where-update_where-le (active_on n at) (active_on n now) test f s.leases
        (λ l. active_on_mono n now at l le) (λ l. h n at l le);
  resources = refl;
}

released_not_active :
    (now : Time) (id : String) (done : Time) (n : String) (at : Time) (l : LeaseRow)
    → now ≤ at
    → unreleased id l ≡ true
    → active_on n at (release_row done l) ≡ true
    → active_on n now l ≡ true
unfolding active_on release_row
released_not_active now id done n at l le h k = ground arith

extended_was_active :
    (now : Time) (id : String) (until : Time) (n : String) (at : Time) (l : LeaseRow)
    → now ≤ at
    → renewable id now l ≡ true
    → active_on n at (extend_row until l) ≡ true
    → active_on n now l ≡ true
unfolding active_on extend_row renewable
extended_was_active now id until n at l le h k = ground arith

pub release-Frees : (now : Time) (id : String) → Ensures (Frees now) (release id now)
unfolding release
release-Frees now id =
    Ensures-exec _ (λ s. Frees-update_where now _ _ s (released_not_active now id now))

pub renew-Frees :
    (now : Time) (id : String) (until : Time) → Ensures (Frees now) (renew id until now)
unfolding renew lease_by_id
renew-Frees now id until =
    search
      (
        ensures_rules,
        Frees-IsPreorder,
        Ensures-exec,
        Frees-update_where,
        extended_was_active now id until,
      )
      depth 20
