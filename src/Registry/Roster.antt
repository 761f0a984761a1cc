-- ===== src/Registry/Roster.antt =====
-- internal/service/registry/registry.go: the operations on the roster. `issue` and `revoke` are the
-- authenticator's `Issue` and `Revoke`.
use lac.Base.{
  ◌-◌, String, ◌^^◌, ◌==◌, Bool, true, false, not, ◌&&◌, Option, none, some, List, [], ◌∷◌, select,
  ℤ, le_ℤ, pos_part, if◌then◌else◌,
}
use lac.Base.Result.{
  Tx, Result, ok, err, not_found, already_exists, invalid_argument, ◌>>=◌, ◌>>◌, return, require,
}
use lac.Core.Time.{Time}
use lac.Core.Name.{validate_name}
use lac.Core.Agent.{Agent, active, stale, deregistered, is_alive}
use lac.Core.Audit.{agent_registered, agent_deregistered, agent_went_stale, system_actor}
use lac.Store.{Db}
use lac.Store.Agents
use lac.Store.Agents.{AgentFilter}
use lac.Dispatch.Workdir.{is_absolute, clean, text_of}
use lac.Dispatch.Work.{allowed}
use lac.Registry.State.{Service, Action, run, and_then, audit}

pub record RegisterRequest : Type 0 where
  pub name : String
  pub kind : String
  pub workdir : String
  pub process_id : ℤ

pub record Registration : Type 0 where
  pub agent : Agent
  pub token : String

-- `resolveWorkdir`; its `within` is that of dispatch.
unfoldable pub resolve_workdir : List String → String → Result String
resolve_workdir roots workdir =
    if workdir == ""
    then err invalid_argument
    else if not (is_absolute workdir)
    then err invalid_argument
    else if allowed roots (clean workdir)
    then ok (text_of (clean workdir))
    else err invalid_argument

-- The working directory of a registration: that of the daemon's own components is not confined.
unfoldable pub workdir_for : Bool → List String → String → Result String
unfolding resolve_workdir
workdir_for true roots workdir = ok workdir
workdir_for false roots workdir = resolve_workdir roots workdir

unfoldable pub agent_for : Service → RegisterRequest → Bool → String → String → Time → Agent
agent_for s request internal workdir agent_id now = record {
  id = agent_id;
  name = request.name;
  kind = request.kind;
  workdir = workdir;
  process_id = request.process_id;
  capabilities = s.options.capabilities_for request.name;
  internal = internal;
  state = active;
  registered_at = now;
  last_heartbeat_at = now;
}

abbrev pub same_process : ℤ → ℤ → Bool
same_process a b = le_ℤ a b && le_ℤ b a

-- What the transaction of `register` does once it has looked for the name: a new agent is created, the
-- same process keeps its identity, and another one is refused.
unfoldable pub settle : Agent → Option Agent → Tx Db Agent
settle agent none = do Agents.create agent; return agent
settle agent (some existing) = do
  require (same_process existing.process_id agent.process_id) already_exists
  let kept = record agent { id = existing.id; registered_at = existing.registered_at }
  Agents.update kept
  return kept

-- `ByName` for which a missing agent is no error.
unfoldable pub absent_is_none : Result (Agent × Db) → Db → Result (Option Agent × Db)
absent_is_none (ok (a, s')) s = ok (some a, s')
absent_is_none (err not_found) s = ok (none, s)
absent_is_none (err e) s = err e

unfoldable pub find_live : String → Tx Db (Option Agent)
unfolding absent_is_none
find_live name s = absent_is_none (Agents.by_name name s) s

-- The transaction of `register`.
unfoldable pub register_tx : Agent → Tx Db Agent
register_tx agent = do existing ← find_live agent.name; settle agent existing

-- The rest of `register`: the token, and the audit entry, whose text is `detail`.
unfoldable pub admit :
    (String → Time → Action String) → (Agent → String) → Time → Agent → Action Registration
admit issue detail now agent s = and_then (issue agent.id now s) λ token s1. (
  ok (record { agent = agent; token = token }),
  audit agent.id agent_registered agent.name (detail agent) now s1,
)

unfoldable pub register_in :
    (String → Time → Action String)
    → (Agent → String)
    → RegisterRequest
    → Bool
    → String
    → Time
    → Result String
    → Action Registration
register_in issue detail request internal agent_id now (err e) s = (err e, s)
register_in issue detail request internal agent_id now (ok workdir) s =
    and_then (run (register_tx (agent_for s request internal workdir agent_id now)) s)
      λ agent s'. admit issue detail now agent s'

-- `register`.
unfoldable pub register_as :
    (String → Time → Action String)
    → (Agent → String)
    → RegisterRequest
    → Bool
    → String
    → Time
    → Action Registration
register_as issue detail request internal agent_id now s = elim (validate_name request.name) [
  | some e ↦ (err e, s)
  | none ↦ elim (validate_name request.kind) [
    | some e ↦ (err e, s)
    | none ↦
        register_in issue detail request internal agent_id now
          (workdir_for internal s.options.workdir_roots request.workdir) s
  ]
]

-- `Register`.
unfoldable pub register :
    (String → Time → Action String)
    → (Agent → String)
    → RegisterRequest
    → String
    → Time
    → Action Registration
register issue detail request agent_id now = register_as issue detail request false agent_id now

-- `RegisterInternal`.
unfoldable pub register_internal :
    (String → Time → Action String)
    → (Agent → String)
    → RegisterRequest
    → String
    → Time
    → Action Registration
register_internal issue detail request agent_id now =
    register_as issue detail
      (record request { workdir = if request.workdir == "" then "/" else request.workdir }) true
      agent_id now

-- `Heartbeat`.
unfoldable pub heartbeat : String → Time → Action (Unit {0})
heartbeat agent_id now = run (Agents.heartbeat agent_id now)

-- `List`.
unfoldable pub list : AgentFilter → Action (List Agent)
list filter = run (Agents.list filter)

-- `Active`: the live agents that were heard of within the time to live.
unfoldable pub active_agents : Time → Action (List Agent)
active_agents now s =
    and_then (list (record { states = active ∷ []; kinds = [] }) s)
      λ agents s'. (ok (select (λ a. is_alive a now (pos_part s.options.time_to_live)) agents), s')

-- `retire`.
unfoldable pub retire :
    (String → Time → Action (Unit {0})) → String → String → String → Time → Action (Unit {0})
retire revoke actor_id agent_id detail now s =
    and_then (run (Agents.set_state agent_id deregistered now) s) λ _ s1.
      and_then (revoke agent_id now s1)
        λ _ s2. (ok tt, audit actor_id agent_deregistered agent_id detail now s2)

-- `Deregister`.
unfoldable pub deregister : (String → Time → Action (Unit {0})) → String → Time → Action (Unit {0})
deregister revoke agent_id now = retire revoke agent_id agent_id "the agent said goodbye" now

-- `Evict`.
unfoldable pub evict :
    (String → Time → Action (Unit {0})) → String → String → Time → Action (Unit {0})
evict revoke actor_id agent_id now = retire revoke actor_id agent_id ("evicted by " ^^ actor_id) now

-- The loop of `ReapStale`, whose statements are not one transaction. `silent` is the audit text.
unfoldable pub mark_stale : (Agent → String) → Time → List Agent → Action (Unit {0})
mark_stale silent now [] s = (ok tt, s)
mark_stale silent now (a ∷ agents) s = and_then (run (Agents.set_state a.id stale now) s) λ _ s'.
    mark_stale silent now agents (audit system_actor agent_went_stale a.id (silent a) now s')

-- `ReapStale`. The cut-off is the time to live ago, and not before the epoch.
unfoldable pub reap_stale : (Agent → String) → Time → Action (List Agent)
reap_stale silent now s =
    and_then (run (Agents.stale_before (now - pos_part s.options.time_to_live)) s)
      λ agents s1. and_then (mark_stale silent now agents s1) λ _ s2. (ok agents, s2)
