-- ===== src/Daemon/Reload.antt =====
-- internal/daemon/reload.go: what a reloaded configuration changes in a running daemon.
use lac.Base.{
  ℕ, suc, zero, String, ◌^^◌, ◌==◌, Bool, true, false, not, ◌&&◌, ◌||◌, Option, none, some, List,
  [], ◌∷◌, ◌++◌, find, length, ℤ, le_ℤ, leb, if◌then◌else◌,
}
use lac.Base.Result.{Result, ok, err}
use lac.Core.Time.{Time}
use lac.Core.Audit.{system_actor}
use lac.Core.Resource.{Resource}
use lac.Strings.Numbers.{itoa}
use lac.Leasing.State.{Service}
use lac.Leasing.Resources.{define}
use lac.Config.{Config, ResourceConfig, CommandConfig, TelegramConfig, CapabilitiesConfig}
use lac.Config.Policy.{resource_of, lookup}
use lac.Config.Loading.{Loaded, loaded, refused}

-- `Daemon`, as far as a reload changes it.
pub record Daemon : Type 0 where
  pub configuration : Config
  pub leasing : Service

pub record ReloadOutcome : Type 0 where
  pub applied : List String
  pub deferred : List String

abbrev pub same_int : ℤ → ℤ → Bool
same_int a b = le_ℤ a b && le_ℤ b a

abbrev pub same_flag : Bool → Bool → Bool
same_flag true b = b
same_flag false b = not b

-- `sameStrings`.
unfoldable pub same_strings : List String → List String → Bool
same_strings [] [] = true
same_strings [] (b ∷ after) = false
same_strings (a ∷ before) [] = false
same_strings (a ∷ before) (b ∷ after) = a == b && same_strings before after

unfoldable pub same_chats : List ℤ → List ℤ → Bool
same_chats [] [] = true
same_chats [] (b ∷ after) = false
same_chats (a ∷ before) [] = false
same_chats (a ∷ before) (b ∷ after) = same_int a b && same_chats before after

-- `sameTelegram`.
unfoldable pub same_telegram : TelegramConfig → TelegramConfig → Bool
unfolding same_chats
same_telegram before after =
    same_flag before.enabled after.enabled
    && before.token == after.token
    && before.token_file == after.token_file
    && same_int before.poll_timeout after.poll_timeout
    && same_int before.report_deadline after.report_deadline
    && same_chats before.allowed_chat_ids after.allowed_chat_ids

-- `sameCapabilities`, which leaves the reading of the log out.
unfoldable pub same_capabilities : CapabilitiesConfig → CapabilitiesConfig → Bool
unfolding same_strings
same_capabilities before after =
    same_flag before.can_broadcast after.can_broadcast
    && same_flag before.can_define_resources after.can_define_resources
    && same_flag before.can_request_reports after.can_request_reports
    && same_strings before.resources after.resources

abbrev pub same_command : CommandConfig → Option CommandConfig → Bool
unfolding same_strings
same_command command none = false
same_command command (some other) =
    other.resource == command.resource
    && other.description == command.description
    && same_int other.time_limit command.time_limit
    && same_strings command.run other.run

-- The loop of `sameCommands`.
unfoldable pub commands_within :
    List (String × CommandConfig) → List (String × CommandConfig) → Bool
unfolding same_command lookup
commands_within [] after = true
commands_within ((key, command) ∷ before) after =
    same_command command (lookup key after) && commands_within before after

-- `sameCommands`.
unfoldable pub same_commands : List (String × CommandConfig) → List (String × CommandConfig) → Bool
unfolding commands_within
same_commands before after =
    leb (length before) (length after)
    && leb (length after) (length before)
    && commands_within before after

-- `findResource`.
unfoldable pub find_resource : List ResourceConfig → String → Option ResourceConfig
find_resource resources name = find (λ r. r.name == name) resources

-- Two resources of configurations are the same struct.
unfoldable pub same_resource : Resource → Resource → Bool
same_resource a b =
    a.name == b.name
    && same_int a.capacity b.capacity
    && same_int a.lease_time_to_live b.lease_time_to_live
    && a.description == b.description

-- The resource is declared as it was.
abbrev pub unchanged : Config → Resource → Option ResourceConfig → Bool
unfolding same_resource resource_of
unchanged previous resource none = false
unchanged previous resource (some existing) =
    same_resource (resource_of existing previous.default_lease_time_to_live) resource

-- A resource that cannot be defined is only logged.
abbrev counted : Result (Unit {0}) × Service → ℕ × Service
counted (ok u, s) = (1, s)
counted (err e, s) = (0, s)

abbrev one_more : ℕ → ℕ × Service → ℕ × Service
one_more zero r = r
one_more (suc n) (m, s) = (suc m, s)

-- The loop of `applyResources`; `detail` is the text of the audit entry.
unfoldable pub define_changed :
    (Resource → String) → Time → Config → Config → List ResourceConfig → Service → ℕ × Service
unfolding unchanged find_resource resource_of define
define_changed detail now previous updated [] s = (0, s)
define_changed detail now previous updated (declared ∷ rest) s =
    let resource = resource_of declared updated.default_lease_time_to_live in
    let (n, s1) = counted (define detail system_actor resource now s) in
    if unchanged previous resource (find_resource previous.resources declared.name)
    then define_changed detail now previous updated rest s
    else one_more n (define_changed detail now previous updated rest s1)

abbrev said : ℕ × Service → List String × Service
said (zero, s) = ([], s)
said (suc n, s) = (("resources (" ^^ itoa (suc n) ^^ ")") ∷ [], s)

-- `applyResources`; no text is an empty list.
unfoldable pub apply_resources :
    (Resource → String) → Time → Config → Config → Service → List String × Service
unfolding define_changed
apply_resources detail now previous updated s =
    said (define_changed detail now previous updated updated.resources s)

abbrev pub when : Bool → String → List String
when true text = text ∷ []
when false text = []

-- `apply`.
unfoldable pub apply : (Resource → String) → Time → Config → Daemon → ReloadOutcome × Daemon
unfolding apply_resources same_telegram same_capabilities same_commands same_strings
apply detail now updated d =
    let previous = d.configuration in
    let (resources, leasing) = apply_resources detail now previous updated d.leasing in
    (
      record {
        applied =
            resources
            ++ when
                (not (same_strings previous.operators updated.operators)
                  || not (same_capabilities previous.capabilities updated.capabilities))
                "capabilities"
            ++ when (not (same_commands previous.worker_commands updated.worker_commands))
                "commands"
            ++ when (not (previous.log_level == updated.log_level)) "log_level";
        deferred =
            when (not (previous.socket_path == updated.socket_path)) "socket_path"
            ++ when (not (previous.database_path == updated.database_path)) "database_path"
            ++ when (not (previous.secret_path == updated.secret_path)) "secret_path"
            ++ when (not (same_telegram previous.telegram updated.telegram)) "telegram";
      },
      record { configuration = updated; leasing = leasing },
    )

abbrev applied_or_kept :
    (Resource → String) → Time → Loaded → Daemon → Option ReloadOutcome × Daemon
unfolding apply
applied_or_kept detail now (refused e) d = (none, d)
applied_or_kept detail now (loaded updated) d =
    let (outcome, d') = apply detail now updated d in (some outcome, d')

-- `Reload`, of what the file says now: a broken one leaves the daemon as it is.
unfoldable pub reload : (Resource → String) → Time → Loaded → Daemon → Option ReloadOutcome × Daemon
unfolding applied_or_kept
reload detail now read d = applied_or_kept detail now read d
