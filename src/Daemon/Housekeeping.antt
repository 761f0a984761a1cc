-- ===== src/Daemon/Housekeeping.antt =====
-- internal/daemon/services.go: `runHousekeeping`, what the daemon reclaims every ten seconds. The
-- services share one database; a failure of one of them is only logged, except that of finding the
-- agents that went silent, which ends the round.
use lac.Base.{ℕ, String, List, [], ◌∷◌}
use lac.Base.Result.{Result, ok, err}
use lac.Core.Time.{Time}
use lac.Core.Agent.{Agent}
use lac.Core.Audit.{system_actor}
use lac.Store.{Db}
use lac.Leasing.State.{Service as LeasingService}
use lac.Leasing.Reclaim.{reap_expired, release_everything_held_by}
use lac.Registry.State.{Service as RegistryService}
use lac.Registry.Roster.{reap_stale}
use lac.Dispatch.State.{Service as DispatchService}
use lac.Dispatch.Outcomes.{release_abandoned}
use lac.Messaging.Post.{prune, Service as PostService}

-- The services; the database that counts is `db`.
pub record House : Type 0 where
  pub db : Db
  pub leasing : LeasingService
  pub registry : RegistryService
  pub dispatch : DispatchService
  pub post : PostService

-- The texts of times and of agents in the audit entries.
pub record Texts : Type 0 where
  pub format_time : Time → String
  pub silent : Agent → String

abbrev after_leasing : {A : Type 0} → House → Result A × LeasingService → House
after_leasing h (r, s) = record h { db = s.db; leasing = s }

-- `ReapExpired`.
unfoldable pub reap_leases : Texts → Time → House → House
unfolding reap_expired
reap_leases texts now h =
    after_leasing h (reap_expired texts.format_time now (record h.leasing { db = h.db }))

-- `ReleaseEverythingHeldBy`, of an agent that went stale.
unfoldable pub reclaim_leases : String → Time → House → Result ℕ × House
unfolding release_everything_held_by
reclaim_leases agent_id now h =
    let (r, s) =
      release_everything_held_by system_actor agent_id "the agent went stale" now
        (record h.leasing { db = h.db }) in
    (r, record h { db = s.db; leasing = s })

-- `ReleaseAbandoned`.
unfoldable pub requeue_tasks : Texts → String → Time → House → House
unfolding release_abandoned
requeue_tasks texts agent_id now h =
    let (r, s) =
      release_abandoned texts.format_time agent_id now (record h.dispatch { db = h.db }) in
    record h { db = s.db; dispatch = s }

-- A worker's tasks are requeued only when its leases could be given back.
abbrev then_requeue : Texts → String → Time → Result ℕ × House → House
unfolding requeue_tasks
then_requeue texts agent_id now (err e, h) = h
then_requeue texts agent_id now (ok released, h) = requeue_tasks texts agent_id now h

-- The loop of `runHousekeeping`.
unfoldable pub reclaim_all : Texts → Time → List Agent → House → House
unfolding then_requeue reclaim_leases
reclaim_all texts now [] h = h
reclaim_all texts now (agent ∷ rest) h =
    reclaim_all texts now rest (then_requeue texts agent.id now (reclaim_leases agent.id now h))

-- `Prune`.
unfoldable pub prune_messages : Time → House → House
unfolding prune
prune_messages now h =
    let (r, s) = prune now (record h.post { db = h.db }) in record h { db = s.db; post = s }

abbrev after_stale : Texts → Time → House → Result (List Agent) × RegistryService → House
unfolding reclaim_all prune_messages
after_stale texts now h (err e, s) = record h { db = s.db; registry = s }
after_stale texts now h (ok agents, s) =
    prune_messages now (reclaim_all texts now agents (record h { db = s.db; registry = s }))

-- `runHousekeeping`.
unfoldable pub run_housekeeping : Texts → Time → House → House
unfolding reap_leases after_stale reap_stale
run_housekeeping texts now h =
    let reaped = reap_leases texts now h in
    after_stale texts now reaped
      (reap_stale texts.silent now (record reaped.registry { db = reaped.db }))
