-- ===== src/Config.antt =====
-- internal/config: the daemon's configuration. The map of the commands is a list of keys and commands
-- in which every key stands once.
pub mod Policy
pub mod Loading
pub mod Validation
pub mod Start
pub mod Tests
use lac.Base.{String, Bool, List, ℤ, ℕ, ◌*◌}
use lac.Core.Time.{Duration}

-- What an agent that is not an operator is allowed to do.
pub record CapabilitiesConfig : Type 0 where
  pub resources : List String
  pub can_broadcast : Bool
  pub can_define_resources : Bool
  pub can_request_reports : Bool
  pub can_read_log : Bool

pub record ResourceConfig : Type 0 where
  pub name : String
  pub capacity : ℤ
  pub lease_time_to_live : Duration
  pub description : String

pub record CommandConfig : Type 0 where
  pub resource : String
  pub run : List String
  pub description : String
  pub time_limit : Duration

pub record TelegramConfig : Type 0 where
  pub enabled : Bool
  pub token : String
  pub token_file : String
  pub allowed_chat_ids : List ℤ
  pub poll_timeout : Duration
  pub report_deadline : Duration

pub record Config : Type 0 where
  pub socket_path : String
  pub database_path : String
  pub secret_path : String
  pub allowed_workdir_roots : List String
  pub agent_time_to_live : Duration
  pub default_lease_time_to_live : Duration
  pub shutdown_grace : Duration
  pub restart_delay : Duration
  pub default_agent_name : String
  pub message_retention : Duration
  pub log_level : String
  pub resources : List ResourceConfig
  pub capabilities : CapabilitiesConfig
  pub operators : List String
  pub telegram : TelegramConfig
  pub worker_commands : List (String × CommandConfig)

pub record Options : Type 0 where
  pub config_path : String
  pub socket_path : String
  pub database_path : String
  pub log_level : String

-- What goes wrong: the configuration is not usable, a file cannot be read, or the user's home
-- directory is not known.
pub data ConfigError : Type 0 where
  invalid_config unreadable no_home : ConfigError

abbrev pub second : ℕ
second = 1000 * 1000 * 1000
