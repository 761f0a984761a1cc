-- ===== src/Config/Validation.antt =====
-- internal/config: `Validate` of the configuration, its commands, its resources and the bridge.
use lac.Base.{
  ℕ, String, ◌==◌, Bool, true, false, not, ◌||◌, Option, none, some, List, [], ◌∷◌, exists, ltb,
  pos, lt_ℤ, le_ℤ, if◌then◌else◌,
}
use lac.Base.Result.{Error}
use lac.Core.Time.{Duration}
use lac.Core.Agent.{wildcard_resource}
use lac.Core.Name.{validate_name}
use lac.Core.Resource
use lac.Dispatch.Workdir.{is_absolute}
use lac.Strings.{byte_length, trim_space}
use lac.Config.{
  Config, ResourceConfig, CommandConfig, TelegramConfig, ConfigError, invalid_config, unreadable,
}
use lac.Config.Policy.{resource_of}

abbrev pub max_socket_path_length : ℕ
max_socket_path_length = 103

-- The first of two checks that fails.
infixr 4 ◌orelse◌
abbrev pub ◌orelse◌ : Option ConfigError → Option ConfigError → Option ConfigError
none orelse later = later
some e orelse later = some e

abbrev pub unless : Bool → Option ConfigError
unless true = none
unless false = some invalid_config

-- An error of the domain makes the configuration invalid.
abbrev pub invalid_if : Option Error → Option ConfigError
invalid_if none = none
invalid_if (some e) = some invalid_config

unfoldable pub check_all : {A : Type 0} → (A → Option ConfigError) → List A → Option ConfigError
check_all check [] = none
check_all check (x ∷ xs) = let rest = check_all check xs in check x orelse rest

unfoldable pub check_command : String × CommandConfig → Option ConfigError
check_command (key, command) =
    invalid_if (validate_name key)
    orelse elim command.run [
      | [] ↦ some invalid_config
      | program ∷ arguments ↦ unless (not (program == ""))
    ]
    orelse invalid_if (validate_name command.resource)
    orelse unless (not (lt_ℤ command.time_limit (pos 0)))

-- `validateCommands`.
unfoldable pub validate_commands : Config → Option ConfigError
unfolding check_all check_command
validate_commands c = check_all check_command c.worker_commands

-- The loop of `validateResources`, with the names it has seen.
unfoldable pub check_resources : Duration → List String → List ResourceConfig → Option ConfigError
unfolding resource_of Resource.validate
check_resources default_time_to_live seen [] = none
check_resources default_time_to_live seen (declared ∷ rest) =
    let later = check_resources default_time_to_live (declared.name ∷ seen) rest in
    invalid_if (Resource.validate (resource_of declared default_time_to_live))
    orelse unless (not (exists (λ n. n == declared.name) seen))
    orelse later

-- `validateResources`.
unfoldable pub validate_resources : Config → Option ConfigError
unfolding check_resources
validate_resources c = check_resources c.default_lease_time_to_live [] c.resources

-- `ResolveToken`; `none` is a token file that cannot be used.
unfoldable pub resolve_token :
    (String → String) → (String → Option String) → TelegramConfig → Option String
unfolding trim_space
resolve_token getenv read_token t =
    let given = trim_space (getenv "LAC_TELEGRAM_TOKEN") in
    if not (given == "")
    then some given
    else if not (t.token_file == "")
    then (if is_absolute t.token_file
        then elim (read_token t.token_file) [ none ↦ none | some text ↦ some (trim_space text) ]
        else none)
    else some (trim_space t.token)

-- `TelegramConfig.validate`, once the token is resolved.
unfoldable pub validate_bridge : TelegramConfig → Option String → Option ConfigError
validate_bridge t none = some unreadable
validate_bridge t (some token) =
    unless (not (token == ""))
    orelse elim t.allowed_chat_ids [ [] ↦ some invalid_config | id ∷ ids ↦ none ]
    orelse unless (not (lt_ℤ t.poll_timeout (pos 0)))

-- `TelegramConfig.validate`.
unfoldable pub validate_telegram :
    (String → String) → (String → Option String) → TelegramConfig → Option ConfigError
unfolding resolve_token validate_bridge
validate_telegram getenv read_token t =
    if t.enabled then validate_bridge t (resolve_token getenv read_token t) else none

abbrev is_positive : Duration → Bool
is_positive d = not (le_ℤ d (pos 0))

abbrev is_level : String → Bool
is_level l = l == "debug" || l == "info" || l == "warn" || l == "error"

unfoldable pub check_grant : String → Option ConfigError
check_grant resource =
    if resource == wildcard_resource then none else invalid_if (validate_name resource)

-- The checks of `Validate` before those of the bridge.
unfoldable pub validate_settings : Config → Option ConfigError
unfolding check_all check_grant
validate_settings c =
    check_all (λ p. unless (is_absolute p)) (c.socket_path ∷ c.database_path ∷ c.secret_path ∷ [])
    orelse unless (not (ltb max_socket_path_length (byte_length c.socket_path)))
    orelse check_all (λ p. unless (is_absolute p)) c.allowed_workdir_roots
    orelse check_all (λ d. unless (is_positive d))
        (c.agent_time_to_live ∷ c.default_lease_time_to_live ∷ c.shutdown_grace ∷ c.restart_delay
          ∷ [])
    orelse check_all (λ n. invalid_if (validate_name n)) c.operators
    orelse (if c.default_agent_name == ""
        then none
        else invalid_if (validate_name c.default_agent_name))
    orelse check_all check_grant c.capabilities.resources
    orelse unless (is_level c.log_level)

-- `Validate`.
unfoldable pub validate : (String → String) → (String → Option String) → Config → Option ConfigError
unfolding validate_settings validate_telegram validate_commands validate_resources
validate getenv read_token c =
    validate_settings c
    orelse validate_telegram getenv read_token c.telegram
    orelse validate_commands c
    orelse validate_resources c
