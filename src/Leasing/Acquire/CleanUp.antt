-- ===== src/Leasing/Acquire/CleanUp.antt =====
-- service/leasing/leasing.go: what an `Acquire` that failed leaves behind in the queue.
use lac.Base.{
  String, Bool, true, false, List, [], ◌∷◌, ◌≡◌, refl, ap, arith, exists, update_where, inl, inr,
}
use lac.Base.Result.{Result, ok, err, Error, capacity_reached}
use lac.Core.Time.{Time}
use lac.Core.Lease.{QueueEntry, QueueEntryState, terminal}
use lac.Store.{QueueRow}
use lac.Store.Resources
use lac.Store.Queue
use lac.Store.Queue.{still_waiting, resolve_row, resolve_queue_entry}
use lac.Leasing.State.{Service, run, and_then, signal}
use lac.Leasing.Steps.{run_cases}
use lac.Leasing.Transactions.{by_name-Reads}
use lac.Leasing.Acquire.{
  AcquireRequest, Round, Outcome, finished, sleeping, wait_for_slot, abandon, abandoned_state,
  clean_up, entry_for, join, await_slot, acquire,
}

-- Whether the request stands in a queue.
abbrev pub queued : String → Service → Bool
queued id s = exists (still_waiting id) s.db.queue_entries

pub resolved_rows :
    (id : String) (state : QueueEntryState) (at : Time) (rows : List QueueRow)
    → terminal state ≡ true
    → exists (still_waiting id) (update_where (still_waiting id) (resolve_row state at) rows)
      ≡ false
unfolding exists update_where still_waiting resolve_row
resolved_rows id state at [] h = refl
resolved_rows id state at (q ∷ rows) h = ground (arith, resolved_rows id state at rows h)

resolve-not_queued :
    (id : String) (state : QueueEntryState) (at : Time) (s : Service)
    → terminal state ≡ true
    → queued id (run (resolve_queue_entry id state at) s).1 ≡ false
unfolding run resolve_queue_entry
resolve-not_queued id state at s h = ground (arith, resolved_rows id state at s.db.queue_entries h)

abandoned_state-terminal : (e : Error) → terminal (abandoned_state e) ≡ true
unfolding abandoned_state
abandoned_state-terminal capacity_reached = refl
abandoned_state-terminal _ = refl

abandon-not_queued :
    (entry : QueueEntry) (cause : Error) (now : Time) (s : Service)
    → queued entry.id (abandon entry cause now s) ≡ false
unfolding abandon signal
abandon-not_queued entry cause now s =
    go (run _ s) (resolve-not_queued entry.id _ now s (abandoned_state-terminal cause))
  where
    go :
        (r : Result (Unit {0}) × Service)
        → queued entry.id r.1 ≡ false
        → queued entry.id (and_then r (λ _ s'. (ok tt, signal entry.resource_name s'))).1 ≡ false
    go (ok _, t) h = h
    go (err e, t) h = h

clean_up-not_queued :
    (entry : QueueEntry) (now : Time) (r : Outcome × Service) (e : Error) (t : Service)
    → clean_up entry now r ≡ (finished (err e), t)
    → queued entry.id t ≡ false
unfolding clean_up
clean_up-not_queued entry now (finished (err x), s) e t h =
    rw (← ap (λ (p : Outcome × Service). p.1) h) (abandon-not_queued entry x now s)
clean_up-not_queued entry now (finished (ok l), s) e t h = absurd (ground arith)
clean_up-not_queued entry now (sleeping, s) e t h = absurd (ground arith)

-- A request that could not join the queue is in no queue, and one that did has the identifier.
abbrev pub Joined : String → Result QueueEntry × Service → Type 0
Joined id (ok entry, s) = entry.id ≡ id
Joined id (err e, s) = queued id s ≡ false

join-Joined :
    (request : AcquireRequest) (id : String) (now : Time) (s : Service)
    → queued id s ≡ false
    → Joined id (join request id now s)
unfolding join entry_for
join-Joined request id now s fresh = elim (run_cases (Resources.by_name request.resource_name) s) [
  | inl (e, _, h) ↦ rw h fresh
  | inr (r, db, found, h) ↦
      let same = (by_name-Reads request.resource_name).same s.db db r found in
      rw (h, same)
        (elim (run_cases (Queue.enqueue (entry_for request r id now)) s) [
          | inl (e, _, k) ↦ rw k fresh
          | inr (_, t, _, k) ↦ rw k refl
        ])
]

-- A request that fails leaves nothing behind in the queue, so the agents behind it do not wait for
-- one that is no longer there: when `Acquire` returns an error, whatever the error and whatever the
-- others did meanwhile, no entry with the request's identifier is waiting. The identifier was not
-- that of a waiting entry before.
pub failed_acquire_leaves_the_queue :
    (request : AcquireRequest) (id : String) (now : Time) (rounds : List Round) (later : Time)
    (s t : Service) (e : Error)
    → queued id s ≡ false
    → acquire request id now rounds later s ≡ (finished (err e), t)
    → queued id t ≡ false
unfolding acquire
failed_acquire_leaves_the_queue request id now rounds later s t e fresh h =
    go (join request id now s) (join-Joined request id now s fresh) h
  where
    go :
        (r : Result QueueEntry × Service)
        → Joined id r
        → await_slot request rounds later r ≡ (finished (err e), t)
        → queued id t ≡ false
    go (ok entry, u) j k =
        let same : entry.id ≡ id = j in
        rw (← same) (
          clean_up-not_queued entry later (wait_for_slot entry request rounds u) e t
            (unfold await_slot in k))
    go (err x, u) j k = unfold await_slot in rw (← ap (λ (p : Outcome × Service). p.1) k) j
