-- ===== src/Prwatch/State.antt =====
-- internal/service/prwatch/prwatch.go: the service's options and state, and how a change is recorded
-- and told. The forge, the clock, the random numbers, the identifiers that are drawn, and the texts of
-- JSON and of errors are outside the service.
use lac.Base.{
  ℕ, suc, ◌*◌, String, ◌==◌, Bool, Option, none, some, List, [], ◌∷◌, pos, le_ℤ, if◌then◌else◌, ℤ,
}
use lac.Base.Result.{Tx, Result, ok, err}
use lac.Core.Time.{Time, Duration}
use lac.Core.Agent.{Agent}
use lac.Core.Message.{Message}
use lac.Core.Watch.{Watch, WatchEvent}
use lac.Store.{Db}
use lac.Store.Agents
use lac.Store.Watches
use lac.Store.Transaction.{in_transaction}
use lac.Leasing.Waiters.{Waiters, new_waiters}
use lac.Leasing.Waiters
use lac.Github.PullRequest.{PullRequest}
use lac.Github.Client.{Answer, ForgeError}
use lac.Messaging.Post
use lac.Messaging.Post.{SendRequest}

-- `Forge`: what it answers about the pull request to an account, and its accounts, `none` where they
-- cannot be listed.
pub record Forge : Type 0 where
  pub pull_request : String → String → String → ℤ → Answer PullRequest
  pub accounts : Option (List String)

pub record Outside : Type 0 where
  pub forge : Forge
  pub now : Time
  -- A number below the given one.
  pub random : ℕ → ℕ
  pub fresh_id : ℕ → String
  pub error_text : ForgeError → String
  pub encode : Watch → WatchEvent → String
  pub json_valid : String → Bool
  pub detail : Message → List String → String

pub record Options : Type 0 where
  pub interval : Duration
  pub settled_interval : Duration
  pub fresh_for : Duration

-- `post` is the messaging service with the database of both; `drawn` counts the identifiers.
pub record Service : Type 0 where
  pub post : Post.Service
  pub has_messaging : Bool
  pub options : Options
  pub sender_id : String
  pub refreshed : Waiters
  pub drawn : ℕ

abbrev pub minute : ℕ
minute = 60 * 1000 * 1000 * 1000

unfoldable pub or_default : Duration → ℕ → Duration
or_default d fallback = if le_ℤ d (pos 0) then pos fallback else d

-- `New`.
unfoldable pub new : Post.Service → Bool → Options → Service
unfolding or_default
new post has_messaging options = record {
  post = post;
  has_messaging = has_messaging;
  options = record {
    interval = or_default options.interval minute;
    settled_interval = or_default options.settled_interval (30 * minute);
    fresh_for = or_default options.fresh_for (5 * minute);
  };
  sender_id = "";
  refreshed = new_waiters;
  drawn = 0;
}

-- `SetSender`.
unfoldable pub set_sender : String → Service → Service
set_sender agent_id s = record s { sender_id = agent_id }

-- `sender`.
unfoldable pub sender : String → Service → String
sender fallback s = if s.sender_id == "" then fallback else s.sender_id

unfoldable pub run : {A : Type 0} → Tx Db A → Service → Result A × Service
unfolding in_transaction
run fn s =
    let (r, db') = in_transaction fn s.post.db in
    (r, record s { post = record s.post { db = db' } })

unfoldable pub signal : String → Service → Service
signal watch_id s = record s { refreshed = Waiters.signal watch_id s.refreshed }

abbrev pub message_kind : String
message_kind = "pr-update"

-- The message of a change, to a subscriber that is still on the roster; that it cannot be delivered
-- is only logged.
abbrev pub tell : Outside → Watch → WatchEvent → String → Result Agent → Service → Service
tell o watch event subscriber (err e) s = s
tell o watch event subscriber (ok agent) s = record s {
  post =
      (Post.send o.json_valid o.detail
        (record {
          from_agent_id = sender subscriber s;
          to_agent_name = agent.name;
          topic = "";
          kind = message_kind;
          body = o.encode watch event;
        })
        (o.fresh_id s.drawn) o.now s.post).1;
  drawn = suc s.drawn;
}

-- The loop of `notify`.
unfoldable pub tell_all : Outside → Watch → WatchEvent → List String → Service → Service
unfolding run
tell_all o watch event [] s = s
tell_all o watch event (subscriber ∷ rest) s =
    tell_all o watch event rest
      (tell o watch event subscriber (run (Agents.by_id subscriber) s).0 s)

-- `notify`.
unfoldable pub notify : Outside → Watch → WatchEvent → Service → Service
unfolding tell_all
notify o watch event s =
    if s.has_messaging
    then tell_all o watch event (Watches.subscribers_of watch.id s.post.db) s
    else s

abbrev pub after_append : Outside → Watch → WatchEvent → Result (Unit {0}) × Service → Service
after_append o watch event (err e, s) = s
after_append o watch event (ok u, s) = notify o watch event s

-- The event as it is stored: of the watch, and now unless it has a time.
abbrev pub stamped : Outside → Watch → WatchEvent → WatchEvent
stamped o watch event = record event {
  watch_id = watch.id;
  at = elim event.at [ none ↦ some o.now | some t ↦ some t ];
}

-- `record`: an event that cannot be stored is logged and told to nobody.
unfoldable pub record_event : Outside → Watch → WatchEvent → Service → Service
unfolding run notify
record_event o watch event s =
    after_append o watch (stamped o watch event)
      (run (Watches.append_event (stamped o watch event)) s)

unfoldable pub record_events : Outside → Watch → List WatchEvent → Service → Service
unfolding record_event
record_events o watch [] s = s
record_events o watch (e ∷ events) s = record_events o watch events (record_event o watch e s)
