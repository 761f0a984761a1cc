-- ===== src/Api/Admin.antt =====
-- internal/api/admin.go: the operator's methods.
use lac.Base.{ℕ, String, ◌^^◌, ◌==◌, Option, none, some, if◌then◌else◌}
use lac.Base.Result.{ok, err, invalid_argument}
use lac.Core.Time.{Time}
use lac.Core.Agent.{Agent}
use lac.Strings.{strip_prefix}
use lac.Auth.Authenticator.{force_release, evict}
use lac.Store.Agents
use lac.Store.Credentials
use lac.Registry.State.{run as run_in_registry}
use lac.Registry.Roster
use lac.Leasing.Reclaim.{release_everything_held_by, free_resource, clear_queue}
use lac.Api.State.{Action, and_then, run, on_leasing, on_registry, permit}

abbrev by_id_or_name : String → Option String → Action Agent
unfolding run
by_id_or_name agent (some rest) = run (Agents.by_id agent)
by_id_or_name agent none = run (Agents.by_name agent)

-- `agentNamed`: an identifier starts with `agent_`.
unfoldable pub agent_named : String → Action Agent
unfolding by_id_or_name strip_prefix
agent_named agent a =
    if agent == ""
    then (err invalid_argument, a)
    else by_id_or_name agent (strip_prefix "agent_" agent) a

-- `handleReleaseAgent`.
unfoldable pub handle_release_agent : String → Time → Agent → Action ℕ
unfolding permit agent_named on_leasing release_everything_held_by
handle_release_agent agent now caller a = and_then (permit caller force_release "" now a) λ _ a1.
    and_then (agent_named agent a1) λ target a2.
      on_leasing
        (release_everything_held_by caller.id target.id ("released by " ^^ caller.name) now) a2

-- `handleFreeResource`.
unfoldable pub handle_free_resource : String → Time → Agent → Action ℕ
unfolding permit on_leasing free_resource
handle_free_resource resource now caller a =
    and_then (permit caller force_release "" now a)
      λ _ a1. on_leasing (free_resource caller.id resource now) a1

-- `handleClearQueue`.
unfoldable pub handle_clear_queue : String → Time → Agent → Action ℕ
unfolding permit on_leasing clear_queue
handle_clear_queue resource now caller a =
    and_then (permit caller force_release "" now a)
      λ _ a1. on_leasing (clear_queue caller.id resource now) a1

-- `Evict` of the registry, whose authenticator revokes the token in the same database.
unfoldable pub retire_agent : String → String → Time → Action (Unit {0})
unfolding on_registry
retire_agent actor_id agent_id now =
    on_registry
      (Roster.evict (λ id at. run_in_registry (Credentials.revoke id at)) actor_id agent_id now)

-- `handleEvict`, once it is known who is meant.
unfoldable pub evict_target : Agent → Time → Agent → Action ℕ
unfolding on_leasing release_everything_held_by retire_agent
evict_target caller now target a =
    if target.internal
    then (err invalid_argument, a)
    else and_then
        (on_leasing
          (release_everything_held_by caller.id target.id ("evicted by " ^^ caller.name) now) a)
        λ released a1. and_then (retire_agent caller.id target.id now a1) λ _ a2. (ok released, a2)

-- `handleEvict`.
unfoldable pub handle_evict : String → Time → Agent → Action ℕ
unfolding permit agent_named evict_target
handle_evict agent now caller a =
    and_then (permit caller evict "" now a)
      λ _ a1. and_then (agent_named agent a1) λ target a2. evict_target caller now target a2
