-- ===== src/Config/Policy.antt =====
-- internal/config/config.go and commands.go: what an agent of a name may do, the resources and the
-- commands that are declared; internal/daemon/catalogue.go: the commands of the dispatch service.
use lac.Base.{
  String, ◌==◌, Bool, true, Option, none, some, List, [], ◌∷◌, map, exists, order_by, text_lt, pos,
  ℤ, le_ℤ, ◌&&◌, if◌then◌else◌,
}
use lac.Core.Time.{Duration}
use lac.Core.Agent.{Capabilities, wildcard_resource}
use lac.Core.Resource.{Resource}
use lac.Dispatch.State.{Command, Catalogue}
use lac.Config.{Config, ResourceConfig, CommandConfig}

-- `CapabilitiesFor`.
unfoldable pub capabilities_for : Config → String → Capabilities
capabilities_for c agent_name =
    if exists (λ o. o == agent_name) c.operators
    then record {
      resources = wildcard_resource ∷ [];
      can_broadcast = true;
      can_define_resources = true;
      can_request_reports = true;
      can_read_log = true;
    }
    else record {
      resources = c.capabilities.resources;
      can_broadcast = c.capabilities.can_broadcast;
      can_define_resources = c.capabilities.can_define_resources;
      can_request_reports = c.capabilities.can_request_reports;
      can_read_log = c.capabilities.can_read_log;
    }

abbrev pub is_zero : ℤ → Bool
is_zero d = le_ℤ d (pos 0) && le_ℤ (pos 0) d

-- `ResourceConfig.Resource`: a time to live of zero is the daemon's default.
unfoldable pub resource_of : ResourceConfig → Duration → Resource
resource_of r default_time_to_live = record {
  name = r.name;
  capacity = r.capacity;
  lease_time_to_live =
      if is_zero r.lease_time_to_live then default_time_to_live else r.lease_time_to_live;
  description = r.description;
  created_at = none;
}

-- `Config.Command`; `none` is the error of a key that is not configured.
unfoldable pub lookup : String → List (String × CommandConfig) → Option CommandConfig
lookup key [] = none
lookup key ((k, command) ∷ commands) =
    let rest = lookup key commands in if k == key then some command else rest

-- `commandOf`.
unfoldable pub command_of : String → CommandConfig → Command
command_of key declared = record {
  key = key;
  resource = declared.resource;
  run = declared.run;
  description = declared.description;
  time_limit = declared.time_limit;
}

abbrev found_as : String → Option CommandConfig → Option Command
unfolding command_of
found_as key none = none
found_as key (some declared) = some (command_of key declared)

abbrev by_key : String × CommandConfig → String × CommandConfig → Bool
by_key a b = text_lt a.0 b.0

-- `catalogue`, of the configuration that stands.
unfoldable pub catalogue : Config → Catalogue
unfolding lookup command_of
catalogue c = record {
  command = λ key. found_as key (lookup key c.worker_commands);
  commands =
      map (λ (p : String × CommandConfig). command_of p.0 p.1) (order_by by_key c.worker_commands);
}
