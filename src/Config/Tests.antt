-- ===== src/Config/Tests.antt =====
-- A configuration with one resource, and a daemon that starts with it.
use lac.Base.{◌*◌, String, true, false, Option, none, [], ◌∷◌, pos}
use lac.Core.Resource
use lac.Config.{Config, second}

abbrev machine : Config
machine = record {
  socket_path = "/run/lacd.sock";
  database_path = "/var/lac.db";
  secret_path = "/var/secret.key";
  allowed_workdir_roots = "/work" ∷ [];
  agent_time_to_live = pos (90 * second);
  default_lease_time_to_live = pos (900 * second);
  shutdown_grace = pos (5 * second);
  restart_delay = pos (5 * second);
  default_agent_name = "";
  message_retention = pos (60 * second);
  log_level = "info";
  resources =
      record { name = "db"; capacity = pos 2; lease_time_to_live = pos 0; description = "" } ∷ [];
  capabilities = record {
    resources = "*" ∷ [];
    can_broadcast = true;
    can_define_resources = false;
    can_request_reports = false;
    can_read_log = false;
  };
  operators = "op" ∷ [];
  telegram = record {
    enabled = false;
    token = "";
    token_file = "";
    allowed_chat_ids = [];
    poll_timeout = pos 0;
    report_deadline = pos 0;
  };
  worker_commands = [];
}

abbrev getenv : String → String
getenv name = ""

abbrev no_file : String → Option String
no_file path = none
