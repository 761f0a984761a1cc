-- ===== src/Leasing/Cleared.antt =====
-- The loops of the service that clear queues: each ends, and leaves nothing.
use lac.Base.{
  exists-count_where, ◌≤◌, String, ◌==◌, Bool, true, false, List, [], ◌∷◌, ◌≡◌, refl, map, arith,
  exists, select, order_by, update_where, count_where, count_where_mono, count_where-order_by,
  length, eq_iff, eq_refl, Bool-cases, inl, inr,
}
use lac.Base.Loops.{
  for_each-total, Remaining, Remaining-step, Remaining-start, Remaining-done, count_where-map,
}
use lac.Base.Result.{Tx, ok, for_each}
use lac.Core.Time.{Time}
use lac.Core.Lease.{QueueEntry, cancelled, is_waiting}
use lac.Store.{Db, LeaseRow, QueueRow, scan_queue_entry}
use lac.Store.Queue.{still_waiting, resolve_row}
use lac.Store.Keys.{entries_of, waiting_of}

-- A statement that cancels the entry, and leaves the leases alone.
pub record Cancels (now : Time) (body : QueueEntry → Tx Db (Unit {0})) : Type 0 where
  pub result : QueueEntry → Db → Db
  pub succeeds :
      (x : QueueEntry) (s : Db)
      → exists (still_waiting x.id) s.queue_entries ≡ true
      → body x s ≡ ok (tt, result x s)
  pub entries :
      (x : QueueEntry) (s : Db)
      → (result x s).queue_entries
        ≡ update_where (still_waiting x.id) (resolve_row cancelled now) s.queue_entries
  pub leases : (x : QueueEntry) (s : Db) → (result x s).leases ≡ s.leases

-- Cancelling an entry leaves the others waiting.
waits-others :
    (id other : String) (now : Time) (rows : List QueueRow)
    → (other == id) ≡ false
    → count_where
        (still_waiting id)
        (update_where (still_waiting other) (resolve_row cancelled now) rows)
      ≡ count_where (still_waiting id) rows
unfolding count_where update_where still_waiting resolve_row
waits-others id other now [] h = refl
waits-others id other now (q ∷ rows) h =
    ground
      (arith, waits-others id other now rows h, eq_iff q.id id, eq_iff q.id other, eq_iff other id)

module _ (p : QueueRow → Bool) (waits : (q : QueueRow) → p q ≡ true → is_waiting q.state ≡ true)
    (now : Time) (body : QueueEntry → Tx Db (Unit {0})) (cancels : Cancels now body) where
  open cancels use {result, succeeds, entries}

  -- What is left to cancel: entries that wait, each once.
  record Clearing (leases : List LeaseRow) (xs : List QueueEntry) (s : Db) : Type 0 where
    left : Remaining (λ q. q.id) (λ q. q.id) p xs s.queue_entries
    once : (id : String) → count_where (λ x. x.id == id) xs ≤ 1
    queued : (id : String) → count_where (λ x. x.id == id) xs ≤ waiting_of id s
    same : s.leases ≡ leases

  cancel_round :
      (leases : List LeaseRow) (x : QueueEntry) (xs : List QueueEntry) (s : Db)
      → Clearing leases (x ∷ xs) s
      → (t : Db) × (body x s ≡ ok (tt, t)) × Clearing leases xs t
  unfolding count_where resolve_row still_waiting
  cancel_round leases x xs s h = (
    result x s,
    succeeds x s (
        exists-count_where (still_waiting x.id) s.queue_entries
          (ground (arith, h.queued x.id, eq_refl x.id))),
    record {
      left = rw (entries x s) (
          Remaining-step (λ q. q.id) (λ q. q.id) p x xs s.queue_entries (still_waiting x.id)
            (resolve_row cancelled now) (λ l k e. ground (arith, waits l k, eq_iff x.id l.id))
            (λ l e. elim (Bool-cases (p (resolve_row cancelled now l))) [
              | inl k ↦ absurd (ground (arith, waits (resolve_row cancelled now l) k))
              | inr k ↦ k
            ])
            h.left);
      once = λ id. ground (arith, h.once id);
      queued = λ id. rw (entries x s) (elim (Bool-cases (x.id == id)) [
        | inl e ↦ ground (arith, h.once id)
        | inr e ↦ ground (arith, h.queued id, waits-others id x.id now s.queue_entries e)
      ]);
      same = rw (cancels.leases x s) h.same;
    },
  )

  picked :
      (id : String) (rows : List QueueRow)
      → count_where (λ q. q.id == id) (select p rows) ≤ count_where (still_waiting id) rows
  unfolding count_where select still_waiting
  picked id [] = omega arith
  picked id (q ∷ rows) = ground (arith, waits q, picked id rows)

  count_where-query :
      (before : QueueRow → QueueRow → Bool) (id : String) (rows : List QueueRow)
      → count_where (λ x. x.id == id) (map scan_queue_entry (order_by before (select p rows)))
        ≤ count_where (still_waiting id) rows
  unfolding scan_queue_entry
  count_where-query before id rows = ground (
    arith,
    count_where-map (λ x. x.id == id) scan_queue_entry (order_by before (select p rows)),
    count_where-order_by before (λ q. q.id == id) (select p rows),
    picked id rows,
  )

  pub cancel_loop :
      (before : QueueRow → QueueRow → Bool) (s : Db)
      → ((id : String) → entries_of id s ≤ 1)
      → let xs = map scan_queue_entry (order_by before (select p s.queue_entries)) in
        (t : Db) × (for_each body xs s ≡ ok (length xs, t))
        × (exists p t.queue_entries ≡ false)
        × (t.leases ≡ s.leases)
  unfolding scan_queue_entry still_waiting
  cancel_loop before s unique =
      let (t, done, end) =
        for_each-total _ (Clearing s.leases) (cancel_round s.leases) _ s (record {
          left = Remaining-start _ _ p scan_queue_entry before s.queue_entries (λ l. refl);
          once = λ id. omega (
            arith,
            count_where-query before id s.queue_entries,
            unique id,
            count_where_mono (still_waiting id) (λ q. q.id == id) s.queue_entries
                (λ q k. ground arith),
          );
          queued = λ id. count_where-query before id s.queue_entries;
          same = refl;
        }) in
      (t, done, Remaining-done _ _ p t.queue_entries end.left, end.same)
