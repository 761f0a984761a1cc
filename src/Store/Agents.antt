-- ===== src/Store/Agents.antt =====
-- internal/store/sqlite/agents.go: the agent repository. The capabilities stand decoded in the row.
use lac.Base.{
  String, ◌==◌, Bool, true, false, not, ◌&&◌, Option, none, some, List, [], ◌∷◌, ◌++◌, map, max,
  ltb, if◌then◌else◌, find, exists, count_where, update_where, select, order_by, text_lt,
}
use lac.Base.Result.{
  Tx, ◌>>=◌, ◌>>◌, return, require, or_fail, check, query, exec, not_found, already_exists,
}
use lac.Core.Time.{Time, require_micros, from_required_micros}
use lac.Core.Agent.{Agent, AgentState, active, is_active, is_deregistered, same_state, validate}
use lac.Store.{Db, AgentRow}

-- `scanAgent`.
unfoldable pub scan_agent : AgentRow → Agent
unfolding from_required_micros
scan_agent row = record {
  id = row.id;
  name = row.name;
  kind = row.kind;
  workdir = row.workdir;
  process_id = row.process_id;
  capabilities = row.capabilities;
  internal = row.internal;
  state = row.state;
  registered_at = from_required_micros row.registered_at;
  last_heartbeat_at = from_required_micros row.last_heartbeat_at;
}

unfoldable pub row_of : Agent → AgentRow
unfolding require_micros
row_of a = record {
  id = a.id;
  name = a.name;
  kind = a.kind;
  workdir = a.workdir;
  process_id = a.process_id;
  capabilities = a.capabilities;
  internal = a.internal;
  state = a.state;
  registered_at = require_micros a.registered_at;
  last_heartbeat_at = require_micros a.last_heartbeat_at;
}

-- The rows of the index `agents_active_name` with the name.
unfoldable pub live_as : String → AgentRow → Bool
live_as name a = a.name == name && is_active a.state

-- Whether two rows of the index have one name.
unfoldable pub clash : List AgentRow → Bool
unfolding live_as
clash rows = exists (λ a. ltb 1 (count_where (live_as a.name) rows)) rows

-- Writes the table, unless the index refuses it.
unfoldable pub write_agents : (List AgentRow → List AgentRow) → Tx Db (Unit {0})
unfolding clash
write_agents f = do
  refused ← query (λ db. clash (f db.agents))
  require (not refused) already_exists
  exec (λ db. record db { agents = f db.agents })

-- `Create`.
unfoldable pub create : Agent → Tx Db (Unit {0})
unfolding row_of write_agents
create agent = do
  check (validate agent)
  taken ← query (λ db. exists (λ a. a.id == agent.id) db.agents)
  require (not taken) already_exists
  write_agents (λ rows. rows ++ row_of agent ∷ [])

-- `Update`.
unfoldable pub update : Agent → Tx Db (Unit {0})
unfolding row_of write_agents
update agent = do
  check (validate agent)
  affected ← query (λ db. exists (λ a. a.id == agent.id) db.agents)
  require affected not_found
  write_agents (update_where (λ a. a.id == agent.id) (λ _. row_of agent))

-- `ByID`.
unfoldable pub by_id : String → Tx Db Agent
unfolding scan_agent
by_id agent_id = do
  row ← query (λ db. find (λ a. a.id == agent_id) db.agents)
  found ← or_fail row not_found
  return (scan_agent found)

-- `ByName`: the live agent of the name.
unfoldable pub by_name : String → Tx Db Agent
unfolding scan_agent live_as
by_name name = do
  row ← query (λ db. find (live_as name) db.agents)
  found ← or_fail row not_found
  return (scan_agent found)

-- `ORDER BY (state = 'active') DESC, registered_at DESC`.
unfoldable pub delivered_before : AgentRow → AgentRow → Bool
delivered_before a b =
    if is_active a.state && not (is_active b.state)
    then true
    else if is_active b.state && not (is_active a.state)
    then false
    else ltb b.registered_at a.registered_at

abbrev pub first_row : List AgentRow → Option AgentRow
first_row [] = none
first_row (a ∷ rows) = some a

-- `FindForDelivery`.
unfoldable pub find_for_delivery : String → Tx Db Agent
unfolding scan_agent delivered_before
find_for_delivery name = do
  row ← query (λ db. first_row (
      order_by delivered_before
        (select (λ a. a.name == name && not (is_deregistered a.state)) db.agents)))
  found ← or_fail row not_found
  return (scan_agent found)

pub record AgentFilter : Type 0 where
  pub states : List AgentState
  pub kinds : List String

abbrev pub any_or_in : {A : Type 0} → List A → (A → Bool) → Bool
any_or_in [] p = true
any_or_in (x ∷ xs) p = exists p (x ∷ xs)

unfoldable pub matches : AgentFilter → AgentRow → Bool
matches filter a =
    any_or_in filter.states (λ s. same_state s a.state) && any_or_in filter.kinds (λ k. k == a.kind)

-- `ORDER BY registered_at, id`.
unfoldable pub registered_before : AgentRow → AgentRow → Bool
registered_before a b =
    if ltb a.registered_at b.registered_at
    then true
    else if ltb b.registered_at a.registered_at
    then false
    else text_lt a.id b.id

-- `List`.
unfoldable pub list : AgentFilter → Tx Db (List Agent)
unfolding scan_agent matches registered_before
list filter =
    query (λ db. map scan_agent (order_by registered_before (select (matches filter) db.agents)))

unfoldable pub present : String → AgentRow → Bool
present agent_id a = a.id == agent_id && not (is_deregistered a.state)

unfoldable pub beat_row : Time → AgentRow → AgentRow
unfolding require_micros
beat_row at a = record a { last_heartbeat_at = require_micros at; state = active }

-- `Heartbeat`: it revives a stale agent, unless another agent has the name by now.
unfoldable pub heartbeat : String → Time → Tx Db (Unit {0})
unfolding present beat_row write_agents
heartbeat agent_id at = do
  affected ← query (λ db. exists (present agent_id) db.agents)
  require affected not_found
  write_agents (update_where (present agent_id) (beat_row at))

unfoldable pub state_row : AgentState → Time → AgentRow → AgentRow
unfolding require_micros
state_row state at a = record a {
  state = state;
  last_heartbeat_at = max a.last_heartbeat_at (require_micros at);
}

-- `SetState`. Every value of `AgentState` is one that the domain defines.
unfoldable pub set_state : String → AgentState → Time → Tx Db (Unit {0})
unfolding state_row write_agents
set_state agent_id state at = do
  affected ← query (λ db. exists (λ a. a.id == agent_id) db.agents)
  require affected not_found
  write_agents (update_where (λ a. a.id == agent_id) (state_row state at))

-- `WHERE state = 'active' AND last_heartbeat_at < ?`.
unfoldable pub silent_since : Time → AgentRow → Bool
unfolding require_micros
silent_since cutoff a = is_active a.state && ltb a.last_heartbeat_at (require_micros cutoff)

abbrev pub by_heartbeat : AgentRow → AgentRow → Bool
by_heartbeat a b = ltb a.last_heartbeat_at b.last_heartbeat_at

-- `StaleBefore`.
unfoldable pub stale_before : Time → Tx Db (List Agent)
unfolding scan_agent silent_since
stale_before cutoff =
    query (λ db. map scan_agent (order_by by_heartbeat (select (silent_since cutoff) db.agents)))
