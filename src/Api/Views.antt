-- ===== src/Api/Views.antt =====
-- internal/api/views.go: what clients see.
use lac.Base.{ℕ, suc, ◌-◌, ◌/◌, ◌*◌, String, Bool, List, [], ◌∷◌, map, ℤ}
use lac.Core.Agent.{Agent, AgentState}
use lac.Core.Resource.{ResourceStatus, free}
use lac.Core.Lease.{Lease, QueueEntry, Priority}
use lac.Store.{Db}
use lac.Leasing.Resources.{Held}
use lac.Api.State.{Texts, name_of}

pub record CapabilitiesView : Type 0 where
  pub resources : List String
  pub can_broadcast : Bool
  pub can_define_resources : Bool
  pub can_request_reports : Bool

pub record AgentView : Type 0 where
  pub id : String
  pub name : String
  pub kind : String
  pub workdir : String
  pub process_id : ℤ
  pub internal : Bool
  pub state : AgentState
  pub capabilities : CapabilitiesView
  pub registered_at : String
  pub last_heartbeat_at : String

-- `viewOfAgent`.
unfoldable pub view_of_agent : Texts → Agent → AgentView
view_of_agent texts agent = record {
  id = agent.id;
  name = agent.name;
  kind = agent.kind;
  workdir = agent.workdir;
  process_id = agent.process_id;
  internal = agent.internal;
  state = agent.state;
  capabilities = record {
    resources = agent.capabilities.resources;
    can_broadcast = agent.capabilities.can_broadcast;
    can_define_resources = agent.capabilities.can_define_resources;
    can_request_reports = agent.capabilities.can_request_reports;
  };
  registered_at = texts.format_time agent.registered_at;
  last_heartbeat_at = texts.format_time agent.last_heartbeat_at;
}

-- `viewsOfAgents`.
unfoldable pub views_of_agents : Texts → List Agent → List AgentView
unfolding view_of_agent
views_of_agents texts = map (view_of_agent texts)

pub record ResourceView : Type 0 where
  pub name : String
  pub capacity : ℤ
  pub held : ℕ
  pub free_slots : ℕ
  pub waiting : ℕ
  pub lease_time_to_live : String
  pub description : String

-- `viewOfResource`.
unfoldable pub view_of_resource : Texts → ResourceStatus → ResourceView
unfolding free
view_of_resource texts status = record {
  name = status.resource.name;
  capacity = status.resource.capacity;
  held = status.active_leases;
  free_slots = free status;
  waiting = status.waiting;
  lease_time_to_live = texts.format_duration status.resource.lease_time_to_live;
  description = status.resource.description;
}

pub record LeaseView : Type 0 where
  pub id : String
  pub resource : String
  pub agent_id : String
  pub acquired_at : String
  pub expires_at : String
  pub renew_after_seconds : ℕ

-- `viewOfLease`: half of the lifetime, in whole seconds. A lease expires after it was acquired.
unfoldable pub view_of_lease : Texts → Lease → LeaseView
view_of_lease texts lease = record {
  id = lease.id;
  resource = lease.resource_name;
  agent_id = lease.agent_id;
  acquired_at = texts.format_time lease.acquired_at;
  expires_at = texts.format_time lease.expires_at;
  renew_after_seconds = (lease.expires_at - lease.acquired_at) / 2 / (1000 * 1000 * 1000);
}

pub record QueueEntryView : Type 0 where
  pub id : String
  pub resource : String
  pub agent_id : String
  pub agent_name : String
  pub priority : Priority
  pub reason : String
  pub requested_at : String
  pub position : ℕ

-- The loop of `handleQueueStatus` over the waiting entries, from a position.
unfoldable pub views_of_queue : Texts → Db → ℕ → List QueueEntry → List QueueEntryView
unfolding name_of
views_of_queue texts db position [] = []
views_of_queue texts db position (entry ∷ entries) =
    record {
      id = entry.id;
      resource = entry.resource_name;
      agent_id = entry.agent_id;
      agent_name = name_of entry.agent_id db;
      priority = entry.priority;
      reason = entry.reason;
      requested_at = texts.format_time entry.requested_at;
      position = suc position;
    }
    ∷ views_of_queue texts db (suc position) entries

pub record HolderView : Type 0 where
  pub lease : LeaseView
  pub agent_name : String
  pub reason : String

-- The loop of `handleQueueStatus` over the holders.
unfoldable pub view_of_holder : Texts → Db → Held → HolderView
unfolding name_of view_of_lease
view_of_holder texts db holding = record {
  lease = view_of_lease texts holding.lease;
  agent_name = name_of holding.lease.agent_id db;
  reason = holding.reason;
}
