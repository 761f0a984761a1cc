-- ===== src/Core/Agent.antt =====
-- internal/core/agent.go: agents and what they are allowed to do.
use lac.Base.{
  not, ℕ, ◌-◌, String, ◌==◌, Bool, true, false, ◌||◌, ◌&&◌, Option, none, some, List, exists, ℤ,
  leb, if◌then◌else◌,
}
use lac.Base.Result.{Error, invalid_argument}
use lac.Core.Time.{Time}
use lac.Core.Name.{validate_name}

pub data AgentState : Type 0 where
  active stale deregistered : AgentState

pub AgentState-discrete : Discrete AgentState
AgentState-discrete = hlevel

abbrev pub is_active : AgentState → Bool
is_active active = true
is_active _ = false

abbrev pub is_deregistered : AgentState → Bool
is_deregistered active = false
is_deregistered stale = false
is_deregistered deregistered = true

abbrev pub same_state : AgentState → AgentState → Bool
same_state active s = is_active s
same_state stale s = not (is_active s || is_deregistered s)
same_state deregistered s = is_deregistered s

pub record Capabilities : Type 0 where
  pub resources : List String
  pub can_broadcast : Bool
  pub can_define_resources : Bool
  pub can_request_reports : Bool
  pub can_read_log : Bool

abbrev pub wildcard_resource : String
wildcard_resource = "*"

unfoldable pub may_lease : Capabilities → String → Bool
may_lease c resource =
    exists (λ r. r == wildcard_resource) c.resources || exists (λ r. r == resource) c.resources

pub record Agent : Type 0 where
  pub id : String
  pub name : String
  pub kind : String
  pub workdir : String
  pub process_id : ℤ
  pub capabilities : Capabilities
  pub internal : Bool
  pub state : AgentState
  pub registered_at : Time
  pub last_heartbeat_at : Time

-- `Validate`. Every value of `AgentState` is one that the domain defines.
unfoldable pub validate : Agent → Option Error
validate a = if a.id == "" then some invalid_argument else elim (validate_name a.name) [
  | some e ↦ some e
  | none ↦ elim (validate_name a.kind) [
    | some e ↦ some e
    | none ↦ if a.workdir == "" then some invalid_argument else none
  ]
]

-- `at.Sub(heartbeat)` is negative for a heartbeat after `at`, and then within any time to live that
-- is not negative.
unfoldable pub is_alive : Agent → Time → ℕ → Bool
is_alive a at time_to_live = is_active a.state && leb (at - a.last_heartbeat_at) time_to_live
