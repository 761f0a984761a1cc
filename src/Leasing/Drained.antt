-- ===== src/Leasing/Drained.antt =====
-- The loops of the service that take back leases and clear queues: each ends, and leaves nothing.
use lac.Base.{
  String, ◌==◌, Bool, true, false, List, [], ◌∷◌, ◌++◌, ◌≡◌, refl, map, arith, exists, select,
  order_by, update_where, length, eq_iff, Bool-cases, inl, inr,
}
use lac.Base.Loops.{for_each-total, Remaining, Remaining-step, Remaining-start, Remaining-done}
use lac.Base.Result.{ok, for_each, run_tx}
use lac.Core.Time.{Time}
use lac.Core.Lease.{Lease}
use lac.Core.Audit.{AuditAction}
use lac.Store.{Db, LeaseRow, QueueRow, scan_lease}
use lac.Store.Leases
use lac.Store.Leases.{is_null, unreleased, release_row}
use lac.Store.AuditLog
use lac.Leasing.Reclaim.{release_one}

module _ (p : LeaseRow → Bool) (live : (l : LeaseRow) → p l ≡ true → is_null l.released_at ≡ true)
    (actor : String) (named : (actor == "") ≡ false) (action : AuditAction)
    (target detail : Lease → String) (now : Time) where
  abbrev released : Lease → Db → Db
  released x s = record s {
    leases = update_where (unreleased x.id) (release_row now) s.leases;
    audit_log =
        s.audit_log
        ++ AuditLog.row_of (record {
          actor = actor;
          action = action;
          target = target x;
          detail = detail x;
          at = now;
        })
          ∷ [];
  }

  -- What is left to release, and the queue as it was.
  record Releasing (queue : List QueueRow) (xs : List Lease) (s : Db) : Type 0 where
    left : Remaining (λ l. l.id) (λ l. l.id) p xs s.leases
    same : s.queue_entries ≡ queue

  release_round :
      (queue : List QueueRow) (x : Lease) (xs : List Lease) (s : Db)
      → Releasing queue (x ∷ xs) s
      → (t : Db) × (release_one actor action target detail now x s ≡ ok (tt, t))
        × Releasing queue xs t
  unfolding release_one run_tx Leases.release AuditLog.append release_row
  release_round queue x xs s h = (
    released x s,
    ground arith,
    record {
      left =
          Remaining-step (λ l. l.id) (λ l. l.id) p x xs s.leases (unreleased x.id) (release_row now)
            (λ l k e. ground (arith, live l k, eq_iff x.id l.id))
            (λ l e. elim (Bool-cases (p (release_row now l))) [
              | inl k ↦ absurd (ground (arith, live (release_row now l) k))
              | inr k ↦ k
            ])
            h.left;
      same = h.same;
    },
  )

  pub release_loop :
      (before : LeaseRow → LeaseRow → Bool) (s : Db)
      → let xs = map scan_lease (order_by before (select p s.leases)) in
        (t : Db) × (for_each (release_one actor action target detail now) xs s ≡ ok (length xs, t))
        × (exists p t.leases ≡ false)
        × (t.queue_entries ≡ s.queue_entries)
  unfolding scan_lease
  release_loop before s =
      let (t, done, end) =
        for_each-total _ (Releasing s.queue_entries) (release_round s.queue_entries) _ s (record {
          left = Remaining-start _ _ p scan_lease before s.leases (λ l. refl);
          same = refl;
        }) in
      (t, done, Remaining-done _ _ p t.leases end.left, end.same)
