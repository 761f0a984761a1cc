-- ===== src/Leasing/Acquire.antt =====
-- service/leasing/leasing.go: `Acquire`, its wait loop, and what it does when the caller gave up.
-- What the other agents do meanwhile is an argument: each round of the loop has a function that the
-- others apply to the service between the look at the channel and the attempt, and one that they
-- apply while the caller sleeps.
pub mod CleanUp
pub mod Success
use lac.Base.{
  ℕ, String, Bool, Option, none, some, List, [], ◌∷◌, ◌/◌, ◌*◌, pos_part, min, max, if◌then◌else◌,
}
use lac.Base.Result.{Result, ok, err, Error, capacity_reached, context_done}
use lac.Core.Time.{Time, Duration}
use lac.Core.Resource.{Resource}
use lac.Core.Lease.{Lease, QueueEntry, QueueEntryState, Priority, waiting, cancelled, expired}
use lac.Core.Audit.{queue_joined}
use lac.Store.Resources
use lac.Store.Queue
use lac.Leasing.Waiters
use lac.Leasing.State.{Service, Action, run, and_then, signal, audit}
use lac.Leasing.Grant.{try_grant}

pub record AcquireRequest : Type 0 where
  pub agent_id : String
  pub resource_name : String
  pub priority : Priority
  pub reason : String
  pub metadata : List ℕ
  pub no_wait : Bool

-- Why the `select` of the loop returned.
pub data Wake : Type 0 where
  changed done timeout : Wake

pub record Round : Type 0 where
  pub before : Service → Service
  pub now : Time
  pub lease_id : String
  pub asleep : Service → Service
  pub wake : Wake

-- What has become of an acquire: it returned, or it still sleeps when the rounds end.
pub data Outcome : Type 0 where
  finished : Result Lease → Outcome
  sleeping : Outcome

-- `s.waiters.watch`.
unfoldable pub watch : String → Service → Service
watch resource s = record s { waiters = (Waiters.watch resource s.waiters).1 }

-- What a round does after its attempt: return, or sleep and go on with the rest of the rounds.
unfoldable pub after_attempt :
    Bool
    → Round
    → (Service → Outcome × Service)
    → Result (Option Lease) × Service
    → Outcome × Service
after_attempt no_wait r rest (err e, s) = (finished (err e), s)
after_attempt no_wait r rest (ok (some lease), s) = (finished (ok lease), s)
after_attempt no_wait r rest (ok none, s) =
    if no_wait
    then (finished (err capacity_reached), s)
    else elim r.wake [ done ↦ (finished (err context_done), r.asleep s) | _ ↦ rest (r.asleep s) ]

-- `waitForSlot`.
unfoldable pub wait_for_slot :
    QueueEntry → AcquireRequest → List Round → Service → Outcome × Service
unfolding watch after_attempt
wait_for_slot entry request [] s = (sleeping, s)
wait_for_slot entry request (r ∷ rounds) s =
    after_attempt request.no_wait r (λ s'. wait_for_slot entry request rounds s')
      (try_grant entry request.metadata r.lease_id r.now (r.before (watch entry.resource_name s)))

-- The state that `abandon` gives an entry.
unfoldable pub abandoned_state : Error → QueueEntryState
abandoned_state capacity_reached = expired
abandoned_state _ = cancelled

-- `abandon`: a failure to resolve the entry is at most logged, and wakes nobody.
unfoldable pub abandon : QueueEntry → Error → Time → Service → Service
unfolding abandoned_state
abandon entry cause now s =
    (and_then (run (Queue.resolve_queue_entry entry.id (abandoned_state cause) now) s)
      λ _ s'. (ok tt, signal entry.resource_name s')).1

-- Only an acquire that failed abandons its entry.
unfoldable pub clean_up : QueueEntry → Time → Outcome × Service → Outcome × Service
unfolding abandon
clean_up entry now (finished (err e), s) = (finished (err e), abandon entry e now s)
clean_up entry now (finished (ok lease), s) = (finished (ok lease), s)
clean_up entry now (sleeping, s) = (sleeping, s)

-- The entry that `Acquire` queues.
unfoldable pub entry_for : AcquireRequest → Resource → String → Time → QueueEntry
entry_for request resource entry_id now = record {
  id = entry_id;
  resource_name = resource.name;
  agent_id = request.agent_id;
  priority = request.priority;
  reason = request.reason;
  state = waiting;
  requested_at = now;
  resolved_at = none;
}

-- The first half of `Acquire`: the request joins the queue.
unfoldable pub join : AcquireRequest → String → Time → Action QueueEntry
unfolding entry_for
join request entry_id now s =
    and_then (run (Resources.by_name request.resource_name) s) λ resource s1.
      let entry = entry_for request resource entry_id now in
      and_then (run (Queue.enqueue entry) s1)
        λ _ s2. (ok entry, audit request.agent_id queue_joined resource.name request.reason now s2)

-- The second half, once the request stands in the queue.
unfoldable pub await_slot :
    AcquireRequest → List Round → Time → Result QueueEntry × Service → Outcome × Service
unfolding wait_for_slot clean_up
await_slot request rounds later (err e, s) = (finished (err e), s)
await_slot request rounds later (ok entry, s) =
    clean_up entry later (wait_for_slot entry request rounds s)

-- `Acquire`; `now` is the time of the request and `later` that of the clean-up.
unfoldable pub acquire :
    AcquireRequest → String → Time → List Round → Time → Service → Outcome × Service
unfolding join await_slot
acquire request entry_id now rounds later s =
    await_slot request rounds later (join request entry_id now s)

-- `reapInterval`: a tenth of the time to live, at least a second and at most thirty.
unfoldable pub reap_interval : Resource → ℕ
reap_interval resource =
    min (max (pos_part resource.lease_time_to_live / 10) 1000000000) 30000000000
