-- ===== src/Api/Tests.antt =====
-- The operator's methods at a small example: alice evicts bob.
use lac.Base.{
  count_where, ◌≢◌, refl, false, none, [], ◌∷◌, pos, exists, find, select, update_where, order_by,
}
use lac.Base.Result.{run_tx}
use lac.Core.Agent.{Agent}
use lac.Store.Agents.{scan_agent}
use lac.Leasing.Example.{idle_db, agent_row, service}
use lac.Auth.Tests
use lac.Api.State.{Api, Texts}
use lac.Api.Leases.{DefineResourceParams}
use lac.Base.Result.{for_each}
use lac.Store.Agents.{set_state, write_agents, state_row, by_id}
use lac.Store.Leases.{active_leases_by_agent, active_by}
use lac.Store.Queue.{waiting_by_agent}
use lac.Store.AuditLog.{append}
use lac.Store.Credentials
use lac.Store.Credentials.{same_bytes, scan_credential, valid_of, revoked_row}
use lac.Store.Transaction.{in_transaction, commit}
use lac.Core.Credential.{revoked}
use lac.Strings.{strip_prefix, byte_length}
use lac.Leasing.State.{run as in_leasing, signal_all}
use lac.Leasing.Reclaim.{release_everything_held_by, release_everything_tx}
use lac.Registry.State.{Options, run as in_registry, audit}
use lac.Messaging.Post.{Service as MessagingService}
use lac.Dispatch.State.{Catalogue}
use lac.Dispatch.State as Dispatch
use lac.Reporting.State as Reporting
use lac.Registry.Roster.{evict, retire}
use lac.Auth.Token.{looks_like_token, hash_token}
use lac.Auth.Authenticator.{run as in_auth, authenticate, check_credential, check_agent}
use lac.Api.State.{on_leasing, on_registry}
use lac.Api.Admin.{retire_agent, evict_target}
use lac.Api.Evicting.{doors, evicted_agent_is_shut_out}

abbrev texts : Texts
texts = record {
  format_time = λ t. "";
  format_duration = λ d. "";
  read_duration = λ text. none;
  read_time = λ text. none;
  resource_detail = λ r. "";
  agent_detail = λ a. "";
}

abbrev alice : Agent
unfolding scan_agent
alice = scan_agent (agent_row "alice")

abbrev guest : Agent
guest = record alice {
  capabilities = record {
    resources = [];
    can_broadcast = false;
    can_define_resources = false;
    can_request_reports = false;
    can_read_log = false;
  };
}

abbrev office_roster : Options
office_roster = record {
  time_to_live = pos 0;
  workdir_roots = [];
  capabilities_for = λ kind. guest.capabilities;
}

abbrev office_post : MessagingService
office_post = record {
  db = idle_db;
  default_time_to_live = pos 0;
  retention = pos 0;
  notifier = none;
}

abbrev catalogue : Catalogue
catalogue = record { command = λ key. none; commands = [] }

abbrev office : Api
office = record {
  db = record idle_db {
    queue_entries = [];
    credentials = Tests.credential "alice" 7 ∷ Tests.credential "bob" 8 ∷ [];
  };
  leasing = service idle_db;
  registry = record { db = idle_db; options = office_roster };
  messaging = office_post;
  dispatch = Dispatch.new idle_db catalogue [];
  reporting = Reporting.new office_post office_roster;
  watcher = none;
  has_notifier = false;
  crypto = Tests.crypto;
  secret = [];
}

abbrev arguments : DefineResourceParams
arguments = record { name = "tests"; capacity = pos 9; lease_time_to_live = ""; description = "" }

abbrev bob : Agent
unfolding scan_agent
bob = scan_agent (agent_row "bob")

abbrev evicted : Api
unfolding evict_target
evicted = (evict_target alice 5 bob office).1

evicted_agent_is_shut_out_example : alice.id ≢ bob.id
unfolding bob count_where
evicted_agent_is_shut_out_example =
    evicted_agent_is_shut_out alice bob alice "lac_fou" 5 6 0 office evicted (doors evicted)
      (unfold evict_target retire_agent on_leasing on_registry release_everything_held_by
          release_everything_tx active_leases_by_agent waiting_by_agent active_by for_each
          in_leasing signal_all in_registry audit evict retire Credentials.revoke valid_of
          revoked_row set_state write_agents state_row append in_transaction commit run_tx find
          update_where select order_by exists in
        refl)
      (unfold evict_target retire_agent on_leasing on_registry release_everything_held_by
          release_everything_tx active_leases_by_agent waiting_by_agent active_by for_each
          in_leasing signal_all in_registry audit evict retire Credentials.revoke valid_of
          revoked_row set_state write_agents state_row append in_transaction commit run_tx find
          update_where select order_by exists authenticate check_credential check_agent
          looks_like_token hash_token in_auth Credentials.by_token_hash by_id same_bytes
          scan_credential scan_agent revoked strip_prefix byte_length in
        refl)
