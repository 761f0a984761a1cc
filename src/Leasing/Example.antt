-- ===== src/Leasing/Example.antt =====
-- A small daemon to try the leasing service on: a test runner with one slot, two agents, and
-- requests of both.
use lac.Base.{String, true, false, none, some, [], ◌∷◌, pos}
use lac.Core.Time.{Time}
use lac.Core.Agent.{active}
use lac.Core.Resource.{Resource}
use lac.Core.Lease.{QueueEntry, waiting, cancelled, priority_normal, priority_interactive}
use lac.Store.{Db, AgentRow, ResourceRow, QueueRow, LeaseRow}
use lac.Leasing.State.{Service}
use lac.Leasing.Waiters.{new_waiters}
use lac.Leasing.Acquire.{AcquireRequest, Round, changed}

abbrev pub agent_row : String → AgentRow
agent_row id = record {
  id = id;
  name = id;
  kind = "coder";
  workdir = "/work";
  process_id = pos 7;
  capabilities = record {
    resources = "*" ∷ [];
    can_broadcast = false;
    can_define_resources = true;
    can_request_reports = false;
    can_read_log = false;
  };
  internal = false;
  state = active;
  registered_at = 0;
  last_heartbeat_at = 0;
}

-- One minute of time to live.
abbrev pub tests_row : ResourceRow
tests_row = record {
  name = "tests";
  capacity = 1;
  lease_ttl_micros = 60000000;
  description = "";
  created_at = 0;
}

abbrev pub tests_resource : Resource
tests_resource = record {
  name = "tests";
  capacity = pos 1;
  lease_time_to_live = pos 60000000000;
  description = "";
  created_at = none;
}

abbrev pub alice_row : QueueRow
alice_row = record {
  id = "q1";
  resource_name = "tests";
  agent_id = "alice";
  priority = priority_normal;
  reason = "unit tests";
  state = waiting;
  requested_at = 1;
  resolved_at = none;
}

abbrev pub bob_row : QueueRow
bob_row = record {
  id = "q2";
  resource_name = "tests";
  agent_id = "bob";
  priority = priority_interactive;
  reason = "a hotfix";
  state = waiting;
  requested_at = 2;
  resolved_at = none;
}

-- A request that was withdrawn.
abbrev pub gone_row : QueueRow
gone_row = record alice_row { id = "q0"; state = cancelled; resolved_at = some 1 }

abbrev pub bob_entry : QueueEntry
bob_entry = record {
  id = "q2";
  resource_name = "tests";
  agent_id = "bob";
  priority = priority_interactive;
  reason = "a hotfix";
  state = waiting;
  requested_at = 2000;
  resolved_at = none;
}

-- A lease of alice's, until second 60.
abbrev pub lease_row : LeaseRow
lease_row = record {
  id = "l1";
  resource_name = "tests";
  agent_id = "alice";
  queue_entry_id = some "q3";
  acquired_at = 0;
  expires_at = 60000000;
  released_at = none;
  metadata = [];
}

-- Nobody holds the slot, and both agents wait for it.
abbrev pub idle_db : Db
idle_db = record {
  agents = agent_row "alice" ∷ agent_row "bob" ∷ [];
  resources = tests_row ∷ [];
  queue_entries = gone_row ∷ alice_row ∷ bob_row ∷ [];
  leases = [];
  audit_log = [];
  tasks = [];
  messages = [];
  deliveries = [];
  subscriptions = [];
  credentials = [];
  report_requests = [];
  reports = [];
  watches = [];
  watch_subscribers = [];
  watch_events = [];
}

-- Alice holds the slot.
abbrev pub busy_db : Db
busy_db = record idle_db { leases = lease_row ∷ [] }

abbrev pub service : Db → Service
service db = record { db = db; waiters = new_waiters; default_time_to_live = pos 900000000000 }

abbrev pub second : Time
second = 1000000000

abbrev pub request : AcquireRequest
request = record {
  agent_id = "bob";
  resource_name = "tests";
  priority = priority_interactive;
  reason = "a hotfix";
  metadata = [];
  no_wait = false;
}

-- A round in which the others do nothing.
abbrev pub quiet_round : Time → String → Round
quiet_round now lease_id = record {
  before = λ s. s;
  now = now;
  lease_id = lease_id;
  asleep = λ s. s;
  wake = changed;
}
