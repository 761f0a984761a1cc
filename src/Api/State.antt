-- ===== src/Api/State.antt =====
-- internal/api/api.go: the services on one database, and who calls. The parameters of a method are
-- decoded; a text that is not JSON of their shape is answered before anything else.
use lac.Base.{ℕ, String, ◌==◌, Option, none, some, List, Bool, pos, lt_ℤ, if◌then◌else◌}
use lac.Base.Result.{Tx, Result, ok, err, unauthorised, invalid_argument}
use lac.Core.Time.{Time, Duration}
use lac.Core.Agent.{Agent, is_deregistered}
use lac.Core.Resource.{Resource}
use lac.Store.{Db}
use lac.Store.Agents
use lac.Store.Transaction.{in_transaction}
use lac.Leasing.State.{Service as LeasingService}
use lac.Registry.State.{Service as RegistryService}
use lac.Messaging.Post.{Service as MessagingService}
use lac.Dispatch.State.{Service as DispatchService, Outcome}
use lac.Reporting.State.{Service as ReportingService}
use lac.Prwatch.State.{Service as Watcher}
use lac.Auth.Token.{Crypto}
use lac.Auth.Authenticator.{Authenticator, Permission, authorise}

-- `API`, as far as the methods here use it. The database that counts is `db`.
pub record Api : Type 0 where
  pub db : Db
  pub leasing : LeasingService
  pub registry : RegistryService
  pub messaging : MessagingService
  pub dispatch : DispatchService
  pub reporting : ReportingService
  pub watcher : Option Watcher
  pub has_notifier : Bool
  pub crypto : Crypto
  pub secret : List ℕ

-- The texts that Go's time package makes and reads, and those of audit entries.
pub record Texts : Type 0 where
  pub format_time : Time → String
  pub format_duration : Duration → String
  pub read_duration : String → Option Duration
  -- The time of a text; an inner `none` is one before the epoch.
  pub read_time : String → Option (Option Time)
  pub resource_detail : Resource → String
  pub agent_detail : Agent → String

abbrev pub Action : Type 0 → Type 0
Action A = Api → Result A × Api

abbrev pub and_then : {A B : Type 0} → Result A × Api → (A → Action B) → Result B × Api
and_then (ok a, s) f = f a s
and_then (err e, s) f = (err e, s)

-- One statement of the store.
unfoldable pub run : {A : Type 0} → Tx Db A → Action A
unfolding in_transaction
run fn a = let (r, db') = in_transaction fn a.db in (r, record a { db = db' })

unfoldable pub on_leasing : {A : Type 0} → (LeasingService → Result A × LeasingService) → Action A
on_leasing call a =
    let (r, s) = call (record a.leasing { db = a.db }) in (r, record a { db = s.db; leasing = s })

unfoldable pub on_registry :
    {A : Type 0} → (RegistryService → Result A × RegistryService) → Action A
on_registry call a =
    let (r, s) = call (record a.registry { db = a.db }) in (r, record a { db = s.db; registry = s })

unfoldable pub on_messaging :
    {A : Type 0} → (MessagingService → Result A × MessagingService) → Action A
on_messaging call a =
    let (r, s) = call (record a.messaging { db = a.db }) in (r, record a { db = s.db })

unfoldable pub on_dispatch :
    {A : Type 0} → (DispatchService → Result A × DispatchService) → Action A
on_dispatch call a =
    let (r, s) = call (record a.dispatch { db = a.db }) in (r, record a { db = s.db; dispatch = s })

-- A call of the dispatch service that waits.
unfoldable pub await_dispatch :
    {A : Type 0} → (DispatchService → Outcome A × DispatchService) → Api → Outcome A × Api
await_dispatch call a =
    let (r, s) = call (record a.dispatch { db = a.db }) in (r, record a { db = s.db; dispatch = s })

-- The reporting service sends by the messaging service.
abbrev pub reporting_of : Api → ReportingService
reporting_of a = record a.reporting { post = record a.messaging { db = a.db } }

unfoldable pub on_reporting :
    {A : Type 0} → (ReportingService → Result A × ReportingService) → Action A
on_reporting call a =
    let (r, s) = call (reporting_of a) in (r, record a { db = s.post.db; reporting = s })

-- The authenticator, which keeps nothing but its database.
unfoldable pub on_auth : {A : Type 0} → (Authenticator → Result A × Authenticator) → Action A
on_auth call a =
    let (r, s) = call (record { crypto = a.crypto; secret = a.secret; db = a.db }) in
    (r, record a { db = s.db })

-- `Authorise`.
unfoldable pub permit : Agent → Permission → String → Time → Action (Unit {0})
unfolding on_auth authorise
permit caller permission target now = on_auth (authorise caller permission target now)

-- The caller that `authenticated` hands on; a deregistered one is refused.
unfoldable pub called_by : {A : Type 0} → (Agent → Action A) → Agent → Action A
called_by next caller a =
    if is_deregistered caller.state then (err unauthorised, a) else next caller a

-- `authenticated`, for the agent that the session belongs to; a session of nobody has no text.
unfoldable pub authenticated : {A : Type 0} → String → (Agent → Action A) → Action A
unfolding run called_by
authenticated agent_id next a =
    if agent_id == ""
    then (err unauthorised, a)
    else and_then (run (Agents.by_id agent_id) a) (called_by next)

abbrev not_negative : Option Duration → Result Duration
not_negative none = err invalid_argument
not_negative (some d) = if lt_ℤ d (pos 0) then err invalid_argument else ok d

-- `parseDuration`.
unfoldable pub parse_duration : Texts → String → Result Duration
parse_duration texts text =
    if text == "" then ok (pos 0) else not_negative (texts.read_duration text)

abbrev named : Result Agent → String
named (ok agent) = agent.name
named (err e) = ""

-- `nameOf`.
unfoldable pub name_of : String → Db → String
unfolding in_transaction
name_of agent_id db = named (in_transaction (Agents.by_id agent_id) db).0
