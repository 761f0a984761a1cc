-- ===== src/Api/Agents.antt =====
-- internal/api/agents.go: registering, and the methods on the roster. A method that binds its session
-- to an agent answers with the identifier that it is bound to.
use lac.Base.{ℕ, ◌/◌, ◌*◌, String, ◌==◌, Option, none, some, List, [], ◌∷◌, pos_part, if◌then◌else◌}
use lac.Base.Result.{Result, ok, err, invalid_argument}
use lac.Core.Time.{Time}
use lac.Core.Agent.{Agent, AgentState, active, stale, deregistered}
use lac.Store.Credentials
use lac.Auth.Authenticator.{authenticate, issue, Authenticator}
use lac.Registry.State.{Service as RegistryService, run as run_in_registry}
use lac.Registry.Roster
use lac.Registry.Roster.{RegisterRequest, Registration}
use lac.Leasing.Reclaim.{release_everything_held_by}
use lac.Api.State.{Api, Texts, Action, and_then, on_leasing, on_registry, on_auth}
use lac.Api.Views.{AgentView, view_of_agent, views_of_agents}

pub record Registered : Type 0 where
  pub agent : AgentView
  pub token : String
  pub session_agent_id : String

abbrev back_in : RegistryService → Result String × Authenticator → Result String × RegistryService
back_in s (r, a) = (r, record s { db = a.db })

-- `Issue` of the authenticator, for the registry on the same database.
unfoldable pub issue_in :
    Api → List ℕ → String → Time → RegistryService → Result String × RegistryService
unfolding issue
issue_in a raw agent_id now s =
    back_in s (issue agent_id raw now (record { crypto = a.crypto; secret = a.secret; db = s.db }))

-- `handleRegister`, with the random bytes of the token and the identifier that is drawn.
unfoldable pub handle_register :
    Texts → RegisterRequest → List ℕ → String → Time → Action Registered
unfolding on_registry issue_in view_of_agent Roster.register
handle_register texts arguments raw agent_id now a =
    and_then
      (on_registry (Roster.register (issue_in a raw) texts.agent_detail arguments agent_id now) a)
      λ registration a'. (
        ok (record {
          agent = view_of_agent texts registration.agent;
          token = registration.token;
          session_agent_id = registration.agent.id;
        }),
        a',
      )

-- `handleAuthenticate`.
unfoldable pub handle_authenticate : Texts → String → Time → Action (AgentView × String)
unfolding on_auth authenticate view_of_agent
handle_authenticate texts token now a =
    and_then (on_auth (authenticate token now) a)
      λ agent a'. (ok (view_of_agent texts agent, agent.id), a')

-- `handleHeartbeat`: the seconds that the agent may stay silent.
unfoldable pub handle_heartbeat : Time → Agent → Action ℕ
unfolding on_registry Roster.heartbeat
handle_heartbeat now caller a =
    and_then (on_registry (Roster.heartbeat caller.id now) a)
      λ _ a'. (ok (pos_part a'.registry.options.time_to_live / (1000 * 1000 * 1000)), a')

abbrev state_named : String → Option AgentState
state_named text =
    if text == "active"
    then some active
    else if text == "stale"
    then some stale
    else if text == "deregistered"
    then some deregistered
    else none

abbrev add_state : Option AgentState → Result (List AgentState) → Result (List AgentState)
add_state none rest = err invalid_argument
add_state (some s) (ok states) = ok (s ∷ states)
add_state (some s) (err e) = err e

-- The loop of `handleAgentList` over the states that are asked for.
unfoldable pub states_named : List String → Result (List AgentState)
states_named [] = ok []
states_named (text ∷ texts) = let rest = states_named texts in add_state (state_named text) rest

-- No states ask for those who are active.
unfoldable pub states_of : List String → Result (List AgentState)
unfolding states_named
states_of [] = ok (active ∷ [])
states_of (text ∷ texts) = states_named (text ∷ texts)

abbrev listed : Texts → List String → Result (List AgentState) → Action (List AgentView)
unfolding on_registry views_of_agents Roster.list
listed texts kinds (err e) a = (err e, a)
listed texts kinds (ok states) a =
    and_then (on_registry (Roster.list (record { states = states; kinds = kinds })) a)
      λ agents a'. (ok (views_of_agents texts agents), a')

-- `handleAgentList`.
unfoldable pub handle_agent_list :
    Texts → List String → List String → Agent → Action (List AgentView)
unfolding listed states_of
handle_agent_list texts states kinds caller = listed texts kinds (states_of states)

-- `handleDeregister`: the leases that the agent gave back.
unfoldable pub handle_deregister : Time → Agent → Action ℕ
unfolding on_leasing on_registry release_everything_held_by Roster.deregister
handle_deregister now caller a =
    and_then
      (on_leasing (release_everything_held_by caller.id caller.id "the agent deregistered" now) a)
      λ released a1.
        and_then
          (on_registry
            (Roster.deregister (λ id at. run_in_registry (Credentials.revoke id at)) caller.id now)
            a1)
          λ _ a2. (ok released, a2)
