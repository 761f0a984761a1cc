-- ===== src/Config/Loading.antt =====
-- internal/config: the defaults, the environment and the options, in the order of their precedence.
-- Reading the file over a configuration, with its YAML, is an argument.
use lac.Base.{
  ◌*◌, String, ◌^^◌, ◌==◌, Bool, true, false, Option, none, some, [], ◌∷◌, pos, if◌then◌else◌,
}
use lac.Core.Agent.{wildcard_resource}
use lac.Dispatch.Workdir.{clean, text_of, is_absolute}
use lac.Config.{Config, Options, ConfigError, no_home, second}
use lac.Config.Validation.{validate}

-- The directories that `DefaultPaths` resolves.
pub record Paths : Type 0 where
  pub config_file : String
  pub state_dir : String
  pub runtime_dir : String

-- `filepath.Join` of texts that are not empty.
unfoldable pub join_path : String → String → String
unfolding clean text_of
join_path directory name = text_of (clean (directory ^^ "/" ^^ name))

-- `environmentDir`, of the variable's value.
unfoldable pub environment_dir : String → String → String
unfolding clean text_of
environment_dir value fallback = if is_absolute value then text_of (clean value) else fallback

-- `DefaultPaths`, in the home directory.
unfoldable pub default_paths : (String → String) → String → Paths
unfolding join_path environment_dir
default_paths getenv home =
    let config_home = environment_dir (getenv "XDG_CONFIG_HOME") (join_path home ".config") in
    let state_home =
      environment_dir (getenv "XDG_STATE_HOME") (join_path (join_path home ".local") "state") in
    let state_dir = join_path state_home "lac" in
    let runtime = environment_dir (getenv "XDG_RUNTIME_DIR") "" in
    record {
      config_file = join_path (join_path config_home "lac") "config.yaml";
      state_dir = state_dir;
      runtime_dir = if runtime == "" then join_path state_dir "run" else join_path runtime "lac";
    }

-- `defaults`.
unfoldable pub defaults : Paths → Config
unfolding join_path
defaults paths = record {
  socket_path = join_path paths.runtime_dir "lacd.sock";
  database_path = join_path paths.state_dir "lac.db";
  secret_path = join_path paths.state_dir "secret.key";
  allowed_workdir_roots = [];
  agent_time_to_live = pos (90 * second);
  default_lease_time_to_live = pos (15 * 60 * second);
  shutdown_grace = pos (5 * second);
  restart_delay = pos (5 * second);
  default_agent_name = "";
  message_retention = pos (24 * 60 * 60 * second);
  log_level = "info";
  resources = [];
  capabilities = record {
    resources = wildcard_resource ∷ [];
    can_broadcast = true;
    can_define_resources = false;
    can_request_reports = false;
    can_read_log = false;
  };
  operators = "operator" ∷ "telegram" ∷ [];
  telegram = record {
    enabled = false;
    token = "";
    token_file = "";
    allowed_chat_ids = [];
    poll_timeout = pos 0;
    report_deadline = pos 0;
  };
  worker_commands = [];
}

-- `configFilePath`: the file, and whether the caller named it.
unfoldable pub config_file_path : (String → String) → Options → Paths → String × Bool
config_file_path getenv options paths =
    if options.config_path == ""
    then (if getenv "LAC_CONFIG" == ""
        then (paths.config_file, false)
        else (getenv "LAC_CONFIG", true))
    else (options.config_path, true)

-- `overlayString`.
unfoldable pub overlay : String → String → String
overlay target value = if value == "" then target else value

-- `applyEnvironment`.
unfoldable pub apply_environment : (String → String) → Config → Config
unfolding overlay
apply_environment getenv c = record c {
  socket_path = overlay c.socket_path (getenv "LAC_SOCKET");
  database_path = overlay c.database_path (getenv "LAC_DATABASE");
  secret_path = overlay c.secret_path (getenv "LAC_SECRET");
  log_level = overlay c.log_level (getenv "LAC_LOG_LEVEL");
}

-- `applyOptions`.
unfoldable pub apply_options : Options → Config → Config
unfolding overlay
apply_options options c = record c {
  socket_path = overlay c.socket_path options.socket_path;
  database_path = overlay c.database_path options.database_path;
  log_level = overlay c.log_level options.log_level;
}

-- A configuration, or the error.
pub data Loaded : Type 0 where
  loaded : Config → Loaded
  refused : ConfigError → Loaded

-- The system that the configuration is read from: the environment, the home directory if it is
-- known, the file of a path over a configuration, and the token in a file.
pub record System : Type 0 where
  pub getenv : String → String
  pub home : Option String
  pub apply_file : String → Bool → Config → Loaded
  pub read_token : String → Option String

abbrev checked : System → Config → Loaded
unfolding validate
checked system c = elim (validate system.getenv system.read_token c) [
  | none ↦ loaded c
  | some e ↦ refused e
]

abbrev over_file : System → Options → Loaded → Loaded
unfolding apply_environment apply_options checked
over_file system options (refused e) = refused e
over_file system options (loaded c) =
    checked system (apply_options options (apply_environment system.getenv c))

abbrev from_home : System → Options → Option String → Loaded
unfolding default_paths defaults config_file_path over_file
from_home system options none = refused no_home
from_home system options (some home) =
    let paths = default_paths system.getenv home in
    let (path, explicit) = config_file_path system.getenv options paths in
    over_file system options (system.apply_file path explicit (defaults paths))

-- `Load`.
unfoldable pub load : System → Options → Loaded
unfolding from_home
load system options = from_home system options system.home
