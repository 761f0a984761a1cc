-- ===== src/Api/Reloading.antt =====
-- internal/api/daemon.go: reading the configuration again, which the daemon does.
use lac.Base.{String, Option, none, some, List}
use lac.Base.Result.{Result, ok, err, unauthorised}
use lac.Core.Time.{Time}
use lac.Core.Agent.{Agent}
use lac.Auth.Authenticator.{define_resource}
use lac.Api.State.{Api, Action, permit}

pub record ReloadOutcome : Type 0 where
  pub applied : List String
  pub deferred : List String

abbrev once_permitted : Action ReloadOutcome → Result (Unit {0}) × Api → Result ReloadOutcome × Api
once_permitted reload (err e, a) = (err unauthorised, a)
once_permitted reload (ok u, a) = reload a

abbrev answer : {A : Type 0} → Result A × Api → Option (Result A) × Api
answer (r, a) = (some r, a)

-- `handleDaemonReload`; a daemon that cannot reload answers with nothing. Whatever is wrong with the
-- permission, the caller is unauthorised.
unfoldable pub handle_daemon_reload :
    Option (Action ReloadOutcome) → Time → Agent → Api → Option (Result ReloadOutcome) × Api
unfolding permit
handle_daemon_reload none now caller a = (none, a)
handle_daemon_reload (some reload) now caller a =
    answer (once_permitted reload (permit caller define_resource "configuration" now a))
