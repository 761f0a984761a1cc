-- ===== src/Store/Watches.antt =====
-- internal/store/sqlite/watches.go: the watch repository.
use lac.Base.{
  ℕ, zero, suc, ◌+◌, String, ◌==◌, Bool, true, false, not, ◌&&◌, Option, none, some, List, [], ◌∷◌,
  ◌++◌, map, find, exists, select, update_where, order_by, text_lt, ltb, leb, if◌then◌else◌, ℤ, pos,
  negsuc, le_ℤ,
}
use lac.Base.Result.{
  Tx, ◌>>=◌, ◌>>◌, return, require, or_fail, check, query, exec, invalid_argument, not_found,
  already_exists,
}
use lac.Core.Time.{Time, require_micros, to_micros, from_required_micros, from_micros}
use lac.Core.Watch.{Watch, WatchEvent, validate}
use lac.Store.{Db, WatchRow, WatchSubscriberRow, WatchEventRow}
use lac.Store.Messages.{take}

-- `scanWatch`.
unfoldable pub scan_watch : WatchRow → Watch
unfolding from_required_micros from_micros
scan_watch row = record {
  id = row.id;
  owner = row.owner;
  repository = row.repository;
  number = row.number;
  account = row.account;
  snapshot = row.snapshot;
  title = row.title;
  state = row.state;
  draft = row.draft;
  checks_state = row.checks_state;
  unresolved = row.unresolved;
  observed_at = from_micros row.observed_at;
  failures = row.failures;
  last_error = row.last_error;
  last_error_at = from_micros row.last_error_at;
  next_poll_at = from_required_micros row.next_poll_at;
  created_at = from_required_micros row.created_at;
}

unfoldable pub row_of : Watch → WatchRow
unfolding require_micros to_micros
row_of w = record {
  id = w.id;
  owner = w.owner;
  repository = w.repository;
  number = w.number;
  account = w.account;
  snapshot = w.snapshot;
  state = w.state;
  draft = w.draft;
  title = w.title;
  checks_state = w.checks_state;
  unresolved = w.unresolved;
  observed_at = to_micros w.observed_at;
  failures = w.failures;
  last_error = w.last_error;
  last_error_at = to_micros w.last_error_at;
  next_poll_at = require_micros w.next_poll_at;
  created_at = require_micros w.created_at;
}

abbrev pub same_number : ℤ → ℤ → Bool
same_number a b = le_ℤ a b && le_ℤ b a

unfoldable pub refers_to : String → String → ℤ → WatchRow → Bool
refers_to owner repository number w =
    w.owner == owner && w.repository == repository && same_number w.number number

-- `Create`. The last two `require` lines are the primary key and the unique reference.
unfoldable pub create : Watch → Tx Db (Unit {0})
unfolding row_of refers_to
create watch = do
  check (validate watch)
  taken ← query (λ db. exists (λ w. w.id == watch.id) db.watches)
  require (not taken) already_exists
  watched ← query (λ db. exists (refers_to watch.owner watch.repository watch.number) db.watches)
  require (not watched) already_exists
  exec (λ db. record db { watches = db.watches ++ row_of watch ∷ [] })

-- `ByID`.
unfoldable pub by_id : String → Tx Db Watch
unfolding scan_watch
by_id watch_id = do
  row ← query (λ db. find (λ w. w.id == watch_id) db.watches)
  found ← or_fail row not_found
  return (scan_watch found)

-- `ByReference`.
unfoldable pub by_reference : String → String → ℤ → Tx Db Watch
unfolding scan_watch refers_to
by_reference owner repository number = do
  row ← query (λ db. find (refers_to owner repository number) db.watches)
  found ← or_fail row not_found
  return (scan_watch found)

-- `ORDER BY created_at, id`.
unfoldable pub created_before : WatchRow → WatchRow → Bool
created_before a b =
    if ltb a.created_at b.created_at
    then true
    else if ltb b.created_at a.created_at
    then false
    else text_lt a.id b.id

-- `List`.
unfoldable pub list : Tx Db (List Watch)
unfolding scan_watch created_before
list = query (λ db. map scan_watch (order_by created_before db.watches))

unfoldable pub is_subscriber : String → String → WatchSubscriberRow → Bool
is_subscriber watch_id agent_id r = r.watch_id == watch_id && r.agent_id == agent_id

-- `ListForAgent`. The primary key of the subscribers makes the join an EXISTS.
unfoldable pub list_for_agent : String → Tx Db (List Watch)
unfolding scan_watch created_before is_subscriber
list_for_agent agent_id = query λ db. map scan_watch (
    order_by created_before (
      select (λ (w : WatchRow). exists (is_subscriber w.id agent_id) db.watch_subscribers)
        db.watches))

-- `WHERE next_poll_at <= ?`.
unfoldable pub due_at : Time → WatchRow → Bool
unfolding require_micros
due_at at w = leb w.next_poll_at (require_micros at)

abbrev pub due_before : WatchRow → WatchRow → Bool
due_before a b = ltb a.next_poll_at b.next_poll_at

-- A limit that is not positive is `fallback`.
abbrev pub limit_or : ℕ → ℤ → ℕ
limit_or fallback (pos zero) = fallback
limit_or fallback (pos (suc n)) = suc n
limit_or fallback (negsuc n) = fallback

-- `Due`.
unfoldable pub due : Time → ℤ → Tx Db (List Watch)
unfolding scan_watch due_at take
due at limit = query λ db.
    take (limit_or 20 limit) (map scan_watch (order_by due_before (select (due_at at) db.watches)))

-- The row that an observation leaves.
unfoldable pub observed_row : Watch → WatchRow → WatchRow
unfolding require_micros to_micros
observed_row w row = record row {
  account = w.account;
  snapshot = w.snapshot;
  state = w.state;
  draft = w.draft;
  title = w.title;
  checks_state = w.checks_state;
  unresolved = w.unresolved;
  observed_at = to_micros w.observed_at;
  failures = 0;
  last_error = "";
  next_poll_at = require_micros w.next_poll_at;
}

-- `RecordObservation`.
unfoldable pub record_observation : Watch → Tx Db (Unit {0})
unfolding observed_row
record_observation watch = do
  affected ← query (λ db. exists (λ w. w.id == watch.id) db.watches)
  require affected not_found
  exec (λ db. record db {
    watches = update_where (λ w. w.id == watch.id) (observed_row watch) db.watches;
  })

-- The row that a failure leaves.
unfoldable pub failed_row : String → Time → Time → WatchRow → WatchRow
unfolding require_micros
failed_row reason at next_poll_at row = record row {
  failures = row.failures + 1;
  last_error = reason;
  last_error_at = some (require_micros at);
  next_poll_at = require_micros next_poll_at;
}

-- `RecordFailure`.
unfoldable pub record_failure : String → String → Time → Time → Tx Db (Unit {0})
unfolding failed_row
record_failure watch_id reason at next_poll_at = do
  affected ← query (λ db. exists (λ w. w.id == watch_id) db.watches)
  require affected not_found
  exec (λ db. record db {
    watches = update_where (λ w. w.id == watch_id) (failed_row reason at next_poll_at) db.watches;
  })

-- `Delete`, with the cascades to the subscribers and the events.
unfoldable pub delete : String → Tx Db (Unit {0})
delete watch_id = do
  affected ← query (λ db. exists (λ w. w.id == watch_id) db.watches)
  require affected not_found
  exec (λ db. record db {
    watches = select (λ w. not (w.id == watch_id)) db.watches;
    watch_subscribers = select (λ r. not (r.watch_id == watch_id)) db.watch_subscribers;
    watch_events = select (λ e. not (e.watch_id == watch_id)) db.watch_events;
  })

-- `Subscribe`: a subscription that stands is kept, and one of a watch or an agent that is not there
-- is refused by the foreign keys.
unfoldable pub subscribe : String → String → Time → Tx Db (Unit {0})
unfolding is_subscriber require_micros
subscribe watch_id agent_id at = do
  already ← query (λ db. exists (is_subscriber watch_id agent_id) db.watch_subscribers)
  if already then return tt else do
    watched ← query (λ db. exists (λ w. w.id == watch_id) db.watches)
    require watched invalid_argument
    known ← query (λ db. exists (λ a. a.id == agent_id) db.agents)
    require known invalid_argument
    exec (λ db. record db {
      watch_subscribers =
          db.watch_subscribers
          ++ record { watch_id = watch_id; agent_id = agent_id; subscribed_at = require_micros at }
            ∷ [];
    })

-- `Unsubscribe`.
unfoldable pub unsubscribe : String → String → Tx Db (Unit {0})
unfolding is_subscriber
unsubscribe watch_id agent_id = exec λ db. record db {
  watch_subscribers = select (λ r. not (is_subscriber watch_id agent_id r)) db.watch_subscribers;
}

-- `ORDER BY subscribed_at, agent_id`.
unfoldable pub subscribed_before : WatchSubscriberRow → WatchSubscriberRow → Bool
subscribed_before a b =
    if ltb a.subscribed_at b.subscribed_at
    then true
    else if ltb b.subscribed_at a.subscribed_at
    then false
    else text_lt a.agent_id b.agent_id

-- The query of `Subscribers`.
unfoldable pub subscribers_of : String → Db → List String
unfolding subscribed_before
subscribers_of watch_id db =
    map (λ r. r.agent_id)
      (order_by subscribed_before (select (λ r. r.watch_id == watch_id) db.watch_subscribers))

-- `Subscribers`.
unfoldable pub subscribers : String → Tx Db (List String)
unfolding subscribers_of
subscribers watch_id = query (subscribers_of watch_id)

abbrev time_or_zero : Option Time → Time
time_or_zero none = 0
time_or_zero (some t) = t

unfoldable pub event_row : WatchEvent → WatchEventRow
unfolding require_micros
event_row e = record {
  watch_id = e.watch_id;
  kind = e.kind;
  summary = e.summary;
  at = require_micros (time_or_zero e.at);
}

-- `AppendEvent`. Every kind is a text that is not empty; the last `require` line is the foreign key.
unfoldable pub append_event : WatchEvent → Tx Db (Unit {0})
unfolding event_row
append_event event = do
  require (not (event.watch_id == "")) invalid_argument
  watched ← query (λ db. exists (λ w. w.id == event.watch_id) db.watches)
  require watched invalid_argument
  exec (λ db. record db { watch_events = db.watch_events ++ event_row event ∷ [] })

abbrev newest_first : List WatchEventRow → List WatchEventRow → List WatchEventRow
newest_first [] acc = acc
newest_first (e ∷ es) acc = newest_first es (e ∷ acc)

unfoldable pub scan_event : WatchEventRow → WatchEvent
unfolding from_required_micros
scan_event row = record {
  watch_id = row.watch_id;
  kind = row.kind;
  summary = row.summary;
  at = some (from_required_micros row.at);
}

-- `Events`.
unfoldable pub events : String → ℤ → Tx Db (List WatchEvent)
unfolding scan_event take
events watch_id limit = query λ db.
    take (limit_or 50 limit)
      (map scan_event (newest_first (select (λ e. e.watch_id == watch_id) db.watch_events) []))
