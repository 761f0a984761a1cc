-- ===== src/Leasing/Acquire/Success.antt =====
-- What an acquire that succeeds has: a lease of its own, and no place in the queue any more.
use lac.Base.{
  ℕ, String, ◌==◌, Bool, true, false, ◌&&◌, Option, none, some, List, [], ◌∷◌, ◌++◌, ◌≡◌, refl,
  arith, exists, eq_refl, inl, inr,
}
use lac.Base.Result.{Result, ok, err}
use lac.Core.Time.{Time}
use lac.Core.Resource.{Resource}
use lac.Core.Lease.{Lease, QueueEntry}
use lac.Store.{Db, LeaseRow, scan_resource}
use lac.Store.Leases
use lac.Store.Resources
use lac.Store.Queue
use lac.Store.Leases.{is_null}
use lac.Leasing.State.{Service}
use lac.Leasing.Grant.{try_grant, try_grant_tx, lease_for}
use lac.Leasing.GrantCases.{Granting, try_grant_cases, grant_effect, granted_db}
use lac.Leasing.Steps.{run_cases, db-signal_grant}
use lac.Leasing.Acquire.{
  AcquireRequest, Round, Outcome, Wake, changed, done, timeout, finished, sleeping, wait_for_slot,
  after_attempt, clean_up, entry_for, join, await_slot, acquire,
}
use lac.Leasing.Acquire.CleanUp.{queued, resolved_rows}

-- The lease is the entry's agent's, stands unreleased in the table, and the entry left the queue.
pub record HasLease (agent id : String) (lease : Lease) (t : Service) : Type 0 where
  pub holder : lease.agent_id ≡ agent
  pub origin : lease.queue_entry_id ≡ id
  pub stored :
      exists (λ l. l.id == lease.id && (l.agent_id == agent && is_null l.released_at)) t.db.leases
      ≡ true
  pub left : queued id t ≡ false

exists-last :
    (p : LeaseRow → Bool) (rows : List LeaseRow) (row : LeaseRow)
    → p row ≡ true
    → exists p (rows ++ row ∷ []) ≡ true
unfolding exists
exists-last p [] row h = ground arith
exists-last p (x ∷ rows) row h = ground (arith, exists-last p rows row h)

granted-HasLease :
    (entry : QueueEntry) (r : Resource) (metadata : List ℕ) (lease_id : String) (now : Time)
    (s : Db) (t : Service)
    → t.db ≡ granted_db entry r (lease_for entry r metadata lease_id now) now s
    → HasLease entry.agent_id entry.id (lease_for entry r metadata lease_id now) t
unfolding lease_for Leases.row_of
granted-HasLease entry r metadata lease_id now s t e = record {
  holder = refl;
  origin = refl;
  stored =
      rw e (exists-last _ s.leases _ (ground (arith, eq_refl lease_id, eq_refl entry.agent_id)));
  left = rw e (resolved_rows entry.id _ now s.queue_entries refl);
}

Granting-HasLease :
    (entry : QueueEntry) (metadata : List ℕ) (lease_id : String) (now : Time) (s u : Db)
    (t : Service) (lease : Lease) (result : Option Lease)
    → result ≡ some lease
    → t.db ≡ u
    → Granting entry metadata lease_id now s result u
    → HasLease entry.agent_id entry.id lease t
Granting-HasLease entry metadata lease_id now s u t lease result is_lease d g =
    let r : Resource = scan_resource g.resource in
    let l : Lease = lease_for entry r metadata lease_id now in
    let (named, e, _, _) = grant_effect entry r l now s u result g.writes in
    let same : l ≡ lease = ground arith in
    rw (← same) (granted-HasLease entry r metadata lease_id now s t (ground arith))

attempt-HasLease :
    (entry : QueueEntry) (metadata : List ℕ) (lease_id : String) (now : Time) (s t : Service)
    (lease : Lease)
    → try_grant entry metadata lease_id now s ≡ (ok (some lease), t)
    → HasLease entry.agent_id entry.id lease t
unfolding try_grant
attempt-HasLease entry metadata lease_id now s t lease h =
    elim (run_cases (try_grant_tx entry metadata lease_id now) s) [
      | inl (e, _, k) ↦ absurd (ground arith)
      | inr (result, db, k, r) ↦
          let is_lease : result ≡ some lease = ground arith in
          let d : t.db ≡ db =
            ground (arith, db-signal_grant entry.resource_name result (record s { db = db })) in
          elim (try_grant_cases entry metadata lease_id now s.db db result k) [
            | inl (nothing, _) ↦ absurd (ground arith)
            | inr g ↦
                Granting-HasLease entry metadata lease_id now s.db db t lease result is_lease d g
          ]
    ]

-- A round that ends the call with a lease took it in its own attempt, or the rest of the rounds did.
round-HasLease :
    (entry : QueueEntry) (no_wait : Bool) (metadata : List ℕ) (r : Round)
    (rest : Service → Outcome × Service) (s t : Service) (lease : Lease)
    → ((u : Service) → rest u ≡ (finished (ok lease), t) → HasLease entry.agent_id entry.id lease t)
    → after_attempt no_wait r rest (try_grant entry metadata r.lease_id r.now s)
      ≡ (finished (ok lease), t)
    → HasLease entry.agent_id entry.id lease t
unfolding after_attempt
round-HasLease entry no_wait metadata r rest s t lease later h = attempted _ refl h
  where
    waits :
        (quick : Bool) (wake : Wake) (u : Service)
        → after_attempt quick (record r { wake = wake }) rest (ok none, u)
          ≡ (finished (ok lease), t)
        → HasLease entry.agent_id entry.id lease t
    waits true wake u h' = absurd (ground arith)
    waits false done u h' = absurd (ground arith)
    waits false changed u h' = later (r.asleep u) h'
    waits false timeout u h' = later (r.asleep u) h'

    attempted :
        (attempt : Result (Option Lease) × Service)
        → try_grant entry metadata r.lease_id r.now s ≡ attempt
        → after_attempt no_wait r rest attempt ≡ (finished (ok lease), t)
        → HasLease entry.agent_id entry.id lease t
    attempted (err e, u) same k = absurd (ground arith)
    attempted (ok (some l), u) same k =
        attempt-HasLease entry metadata r.lease_id r.now s t lease (ground arith)
    attempted (ok none, u) same k = waits no_wait r.wake u k

waited-HasLease :
    (entry : QueueEntry) (request : AcquireRequest) (rounds : List Round) (s t : Service)
    (lease : Lease)
    → wait_for_slot entry request rounds s ≡ (finished (ok lease), t)
    → HasLease entry.agent_id entry.id lease t
unfolding wait_for_slot
waited-HasLease entry request [] s t lease h = absurd (ground arith)
waited-HasLease entry request (r ∷ rounds) s t lease h =
    round-HasLease entry request.no_wait request.metadata r _ _ t lease
      (λ u k. waited-HasLease entry request rounds u t lease k) h

clean_up-ok :
    (entry : QueueEntry) (now : Time) (r : Outcome × Service) (t : Service) (lease : Lease)
    → clean_up entry now r ≡ (finished (ok lease), t)
    → r ≡ (finished (ok lease), t)
unfolding clean_up
clean_up-ok entry now (finished (err e), s) t lease h = absurd (ground arith)
clean_up-ok entry now (finished (ok l), s) t lease h = h
clean_up-ok entry now (sleeping, s) t lease h = h

-- The entry that `join` queues is the request's.
abbrev IsOf : String → String → Result QueueEntry × Service → Type 0
IsOf agent id (ok entry, s) = (entry.agent_id ≡ agent) × (entry.id ≡ id)
IsOf agent id (err e, s) = Unit

join-IsOf :
    (request : AcquireRequest) (id : String) (now : Time) (s : Service)
    → IsOf request.agent_id id (join request id now s)
unfolding join entry_for
join-IsOf request id now s = elim (run_cases (Resources.by_name request.resource_name) s) [
  | inl (e, _, h) ↦ rw h tt
  | inr (r, db, _, h) ↦
      rw h (elim (run_cases (Queue.enqueue (entry_for request r id now)) (record s { db = db })) [
        | inl (e, _, k) ↦ rw k tt
        | inr (_, t, _, k) ↦ rw k (refl, refl)
      ])
]

-- An acquire that succeeds returns a lease of the requesting agent, made for the request's own queue
-- entry. The lease is in the table, unreleased, at the end of the call, and the entry no longer
-- waits. What the other agents do before each attempt and during each sleep is arbitrary.
pub successful_acquire_holds_a_lease :
    (request : AcquireRequest) (id : String) (now : Time) (rounds : List Round) (later : Time)
    (s t : Service) (lease : Lease)
    → acquire request id now rounds later s ≡ (finished (ok lease), t)
    → HasLease request.agent_id id lease t
unfolding acquire await_slot
successful_acquire_holds_a_lease request id now rounds later s t lease h =
    go (join request id now s) (join-IsOf request id now s) h
  where
    go :
        (r : Result QueueEntry × Service)
        → IsOf request.agent_id id r
        → await_slot request rounds later r ≡ (finished (ok lease), t)
        → HasLease request.agent_id id lease t
    go (err e, u) j k = absurd (ground arith)
    go (ok entry, u) (same_agent, same_id) k =
        rw (← same_agent, ← same_id)
          (waited-HasLease entry request rounds u t lease
            (clean_up-ok entry later (wait_for_slot entry request rounds u) t lease k))
