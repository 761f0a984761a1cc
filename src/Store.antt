-- ===== src/Store.antt =====
-- internal/store/sqlite: the tables of the schema (migrations/0001_init.sql) that the modelled
-- services read and write, and the conversion between rows and domain values.
pub mod Resources
pub mod Queue
pub mod Leases
pub mod AuditLog
pub mod Agents
pub mod Tasks
pub mod Messages
pub mod MessageLog
pub mod Credentials
pub mod Reports
pub mod Watches
pub mod Transaction
pub mod Slots
pub mod Later
pub mod ServiceOrder
pub mod Keys
pub mod TaskHistory
use lac.Base.{ℕ, String, ◌==◌, Bool, Option, none, some, List, [], ℤ, pos, ◌*◌, if◌then◌else◌}
use lac.Core.Time.{Time, require_micros, to_micros, from_required_micros, from_micros}
use lac.Core.Agent.{AgentState, Capabilities}
use lac.Core.Resource.{Resource}
use lac.Core.Lease.{QueueEntry, QueueEntryState, Priority, Lease}
use lac.Core.Audit.{AuditAction}
use lac.Core.Task.{Task, TaskState}
use lac.Core.Watch.{WatchEventKind}
use lac.Github.PullRequest.{PullRequest}

-- The columns of the tables: instants in microseconds, NULL as `none`.
pub record AgentRow : Type 0 where
  pub id : String
  pub name : String
  pub kind : String
  pub workdir : String
  pub process_id : ℤ
  pub capabilities : Capabilities
  pub internal : Bool
  pub state : AgentState
  pub registered_at : ℕ
  pub last_heartbeat_at : ℕ

pub record ResourceRow : Type 0 where
  pub name : String
  pub capacity : ℕ
  pub lease_ttl_micros : ℕ
  pub description : String
  pub created_at : ℕ

pub record QueueRow : Type 0 where
  pub id : String
  pub resource_name : String
  pub agent_id : String
  pub priority : Priority
  pub reason : String
  pub state : QueueEntryState
  pub requested_at : ℕ
  pub resolved_at : Option ℕ

pub record LeaseRow : Type 0 where
  pub id : String
  pub resource_name : String
  pub agent_id : String
  pub queue_entry_id : Option String
  pub acquired_at : ℕ
  pub expires_at : ℕ
  pub released_at : Option ℕ
  pub metadata : List ℕ

pub record AuditRow : Type 0 where
  pub actor : String
  pub action : AuditAction
  pub target : String
  pub detail : String
  pub at : ℕ

pub record TaskRow : Type 0 where
  pub id : String
  pub resource_name : String
  pub command_key : String
  pub workdir : String
  pub requester_id : String
  pub worker_id : Option String
  pub lease_id : Option String
  pub state : TaskState
  pub exit_code : Option ℤ
  pub output : String
  pub failure : String
  pub submitted_at : ℕ
  pub started_at : Option ℕ
  pub finished_at : Option ℕ

pub record MessageRow : Type 0 where
  pub id : String
  pub from_agent_id : String
  pub to_agent_id : Option String
  pub topic : Option String
  pub kind : String
  pub body : String
  pub created_at : ℕ
  pub expires_at : Option ℕ

pub record DeliveryRow : Type 0 where
  pub message_id : String
  pub agent_id : String
  pub delivered_at : Option ℕ
  pub acked_at : Option ℕ

pub record SubscriptionRow : Type 0 where
  pub agent_id : String
  pub topic : String
  pub subscribed_at : ℕ

pub record CredentialRow : Type 0 where
  pub agent_id : String
  pub token_hash : List ℕ
  pub issued_at : ℕ
  pub revoked_at : Option ℕ

-- The JSON list of the asked agents stands decoded in the row.
pub record ReportRequestRow : Type 0 where
  pub id : String
  pub requester_id : String
  pub question : String
  pub asked_agent_ids : List String
  pub created_at : ℕ
  pub deadline : ℕ

pub record ReportRow : Type 0 where
  pub request_id : String
  pub agent_id : String
  pub body : String
  pub created_at : ℕ

-- The JSON snapshot stands decoded in the row; an empty one is `none`.
pub record WatchRow : Type 0 where
  pub id : String
  pub owner : String
  pub repository : String
  pub number : ℤ
  pub account : String
  pub snapshot : Option PullRequest
  pub state : String
  pub draft : Bool
  pub title : String
  pub checks_state : String
  pub unresolved : ℕ
  pub observed_at : Option ℕ
  pub failures : ℕ
  pub last_error : String
  pub last_error_at : Option ℕ
  pub next_poll_at : ℕ
  pub created_at : ℕ

pub record WatchSubscriberRow : Type 0 where
  pub watch_id : String
  pub agent_id : String
  pub subscribed_at : ℕ

-- In the order of their numbers, so the number is the place in the table.
pub record WatchEventRow : Type 0 where
  pub watch_id : String
  pub kind : WatchEventKind
  pub summary : String
  pub at : ℕ

pub record Db : Type 0 where
  pub agents : List AgentRow
  pub resources : List ResourceRow
  pub queue_entries : List QueueRow
  pub leases : List LeaseRow
  pub audit_log : List AuditRow
  pub tasks : List TaskRow
  pub messages : List MessageRow
  pub deliveries : List DeliveryRow
  pub subscriptions : List SubscriptionRow
  pub credentials : List CredentialRow
  pub report_requests : List ReportRequestRow
  pub reports : List ReportRow
  pub watches : List WatchRow
  pub watch_subscribers : List WatchSubscriberRow
  pub watch_events : List WatchEventRow

abbrev pub empty_db : Db
empty_db = record {
  agents = [];
  resources = [];
  queue_entries = [];
  leases = [];
  audit_log = [];
  tasks = [];
  messages = [];
  deliveries = [];
  subscriptions = [];
  credentials = [];
  report_requests = [];
  reports = [];
  watches = [];
  watch_subscribers = [];
  watch_events = [];
}

-- `nullString`: an empty text is stored as NULL.
unfoldable pub null_string : String → Option String
null_string value = if value == "" then none else some value

unfoldable pub from_null_string : Option String → String
from_null_string none = ""
from_null_string (some value) = value

-- `scanResource`, with the duration back in nanoseconds.
unfoldable pub scan_resource : ResourceRow → Resource
unfolding from_required_micros
scan_resource row = record {
  name = row.name;
  capacity = pos row.capacity;
  lease_time_to_live = pos (row.lease_ttl_micros * 1000);
  description = row.description;
  created_at = some (from_required_micros row.created_at);
}

unfoldable pub scan_queue_entry : QueueRow → QueueEntry
unfolding from_required_micros from_micros
scan_queue_entry row = record {
  id = row.id;
  resource_name = row.resource_name;
  agent_id = row.agent_id;
  priority = row.priority;
  reason = row.reason;
  state = row.state;
  requested_at = from_required_micros row.requested_at;
  resolved_at = from_micros row.resolved_at;
}

unfoldable pub scan_lease : LeaseRow → Lease
unfolding from_required_micros from_micros from_null_string
scan_lease row = record {
  id = row.id;
  resource_name = row.resource_name;
  agent_id = row.agent_id;
  queue_entry_id = from_null_string row.queue_entry_id;
  acquired_at = from_required_micros row.acquired_at;
  expires_at = from_required_micros row.expires_at;
  released_at = from_micros row.released_at;
  metadata = row.metadata;
}

-- The exit code of a task that has none is Go's zero.
abbrev exit_code_of : Option ℤ → ℤ
exit_code_of none = pos 0
exit_code_of (some c) = c

unfoldable pub scan_task : TaskRow → Task
unfolding from_required_micros from_micros from_null_string
scan_task row = record {
  id = row.id;
  resource_name = row.resource_name;
  command_key = row.command_key;
  workdir = row.workdir;
  requester_id = row.requester_id;
  worker_id = from_null_string row.worker_id;
  lease_id = from_null_string row.lease_id;
  state = row.state;
  exit_code = exit_code_of row.exit_code;
  output = row.output;
  failure = row.failure;
  submitted_at = from_required_micros row.submitted_at;
  started_at = from_micros row.started_at;
  finished_at = from_micros row.finished_at;
}
