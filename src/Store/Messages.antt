-- ===== src/Store/Messages.antt =====
-- internal/store/sqlite/messages.go: the message repository; its `List` is in Store.MessageLog.
use lac.Base.{
  ℕ, zero, suc, ◌-◌, ◌+◌, String, ◌==◌, Bool, true, false, not, ◌&&◌, ◌||◌, Option, none, some,
  List, [], ◌∷◌, ◌++◌, map, ltb, leb, if◌then◌else◌, exists, count_where, update_where, select,
  order_by, text_lt, ℤ, pos, negsuc,
}
use lac.Base.Result.{
  Tx, ◌>>=◌, ◌>>◌, return, require, check, query, exec, for_each, already_exists, invalid_argument,
}
use lac.Core.Time.{Time, Duration, require_micros, to_micros, from_required_micros, from_micros}
use lac.Core.Name.{validate_name}
use lac.Core.Message.{Message, validate}
use lac.Store.{Db, MessageRow, DeliveryRow, SubscriptionRow, null_string, from_null_string}
use lac.Store.Leases.{is_null}

-- `scanMessage`.
unfoldable pub scan_message : MessageRow → Message
unfolding from_required_micros from_micros from_null_string
scan_message row = record {
  id = row.id;
  from_agent_id = row.from_agent_id;
  to_agent_id = from_null_string row.to_agent_id;
  topic = from_null_string row.topic;
  kind = row.kind;
  body = row.body;
  created_at = from_required_micros row.created_at;
  expires_at = from_micros row.expires_at;
}

unfoldable pub row_of : Message → MessageRow
unfolding require_micros to_micros null_string
row_of m = record {
  id = m.id;
  from_agent_id = m.from_agent_id;
  to_agent_id = null_string m.to_agent_id;
  topic = null_string m.topic;
  kind = m.kind;
  body = m.body;
  created_at = require_micros m.created_at;
  expires_at = to_micros m.expires_at;
}

abbrev pub is_empty : {A : Type 0} → List A → Bool
is_empty [] = true
is_empty (x ∷ xs) = false

unfoldable pub is_delivery : String → String → DeliveryRow → Bool
is_delivery message_id agent_id d = d.message_id == message_id && d.agent_id == agent_id

-- The loop body of `Append`: `INSERT OR IGNORE INTO deliveries`.
unfoldable pub deliver : String → String → Tx Db (Unit {0})
unfolding is_delivery
deliver message_id agent_id = exec λ db. record db {
  deliveries =
      if exists (is_delivery message_id agent_id) db.deliveries
      then db.deliveries
      else db.deliveries
        ++ record {
          message_id = message_id;
          agent_id = agent_id;
          delivered_at = none;
          acked_at = none;
        }
          ∷ [];
}

-- `Append`.
unfoldable pub append : Message → List String → Tx Db (Unit {0})
unfolding row_of deliver
append message recipient_ids = do
  check (validate message)
  require (not (is_empty recipient_ids)) invalid_argument
  taken ← query (λ db. exists (λ m. m.id == message.id) db.messages)
  require (not taken) already_exists
  exec (λ db. record db { messages = db.messages ++ row_of message ∷ [] })
  for_each (deliver message.id) recipient_ids
  return tt

-- `d.agent_id = ? AND d.acked_at IS NULL`, joined to a message.
unfoldable pub outstanding : String → String → DeliveryRow → Bool
outstanding agent_id message_id d =
    d.message_id == message_id && d.agent_id == agent_id && is_null d.acked_at

-- `ORDER BY m.created_at, m.id`.
unfoldable pub sent_before : MessageRow → MessageRow → Bool
sent_before a b =
    if ltb a.created_at b.created_at
    then true
    else if ltb b.created_at a.created_at
    then false
    else text_lt a.id b.id

-- The query of `Pending` without its limit. A message has one delivery for an agent, the primary key
-- of the deliveries.
unfoldable pub unacknowledged : String → Db → List Message
unfolding scan_message outstanding sent_before
unacknowledged agent_id db = map scan_message (
    order_by sent_before
      (select (λ m. exists (outstanding agent_id m.id) db.deliveries) db.messages))

unfoldable pub take : {A : Type 0} → ℕ → List A → List A
take zero xs = []
take (suc n) [] = []
take (suc n) (x ∷ xs) = x ∷ take n xs

-- A limit that is not positive is `defaultInboxLimit`.
unfoldable pub inbox_limit : ℤ → ℕ
inbox_limit (pos zero) = 100
inbox_limit (pos (suc n)) = suc n
inbox_limit (negsuc n) = 100

-- `Pending`.
unfoldable pub pending : String → ℤ → Tx Db (List Message)
unfolding unacknowledged take inbox_limit
pending agent_id limit = query (λ db. take (inbox_limit limit) (unacknowledged agent_id db))

unfoldable pub unread : String → List String → DeliveryRow → Bool
unread agent_id message_ids d =
    d.agent_id == agent_id && is_null d.delivered_at && exists (λ i. i == d.message_id) message_ids

unfoldable pub read_row : Time → DeliveryRow → DeliveryRow
unfolding require_micros
read_row at d = record d { delivered_at = some (require_micros at) }

-- `MarkDelivered`. No row has its message among no identifiers.
unfoldable pub mark_delivered : String → List String → Time → Tx Db (Unit {0})
unfolding unread read_row
mark_delivered agent_id message_ids at =
    if is_empty message_ids
    then return tt
    else exec λ db. record db {
      deliveries = update_where (unread agent_id message_ids) (read_row at) db.deliveries;
    }

unfoldable pub owed : String → List String → DeliveryRow → Bool
owed agent_id message_ids d =
    d.agent_id == agent_id && is_null d.acked_at && exists (λ i. i == d.message_id) message_ids

-- `COALESCE`.
abbrev pub coalesce : Option ℕ → ℕ → ℕ
coalesce none m = m
coalesce (some k) m = k

unfoldable pub acked_row : Time → DeliveryRow → DeliveryRow
unfolding require_micros
acked_row at d = record d {
  acked_at = some (require_micros at);
  delivered_at = some (coalesce d.delivered_at (require_micros at));
}

-- `Acknowledge`.
unfoldable pub acknowledge : String → List String → Time → Tx Db ℕ
unfolding owed acked_row
acknowledge agent_id message_ids at = if is_empty message_ids then return 0 else do
  affected ← query (λ db. count_where (owed agent_id message_ids) db.deliveries)
  exec (λ db. record db {
    deliveries = update_where (owed agent_id message_ids) (acked_row at) db.deliveries;
  })
  return affected

abbrev pub due : ℕ → Option ℕ → Bool
due at none = false
due at (some expires) = leb expires at

-- The messages that `PruneExpired` deletes: those that expired, and those from before the cut-off
-- whose every delivery is acknowledged.
unfoldable pub prunable : ℕ → ℕ → List DeliveryRow → MessageRow → Bool
prunable at cutoff deliveries m =
    due at m.expires_at
    || (leb m.created_at cutoff
        && not (exists (λ d. d.message_id == m.id && is_null d.acked_at) deliveries))

-- `at.Add(-retention)`, and not before the epoch.
abbrev pub earlier : Time → Duration → Time
earlier at (pos d) = at - d
earlier at (negsuc d) = at + suc d

-- `PruneExpired`; the deliveries of a deleted message go with it.
unfoldable pub prune_expired : Time → Duration → Tx Db ℕ
unfolding prunable require_micros
prune_expired at retention = do
  let gone = prunable (require_micros at) (require_micros (earlier at retention))
  affected ← query (λ db. count_where (gone db.deliveries) db.messages)
  exec (λ db. record db {
    messages = select (λ m. not (gone db.deliveries m)) db.messages;
    deliveries =
        select (λ d. not (exists (λ m. m.id == d.message_id && gone db.deliveries m) db.messages))
          db.deliveries;
  })
  return affected

unfoldable pub subscribes : String → String → SubscriptionRow → Bool
subscribes agent_id topic r = r.agent_id == agent_id && r.topic == topic

-- `Subscribe`, at the time `now` of the clock: `INSERT OR IGNORE INTO subscriptions`, whose agent has
-- to exist.
unfoldable pub subscribe : String → String → Time → Tx Db (Unit {0})
unfolding subscribes require_micros
subscribe agent_id topic now = do
  check (validate_name topic)
  already ← query (λ db. exists (subscribes agent_id topic) db.subscriptions)
  if already then return tt else do
    known ← query (λ db. exists (λ a. a.id == agent_id) db.agents)
    require known invalid_argument
    exec (λ db. record db {
      subscriptions =
          db.subscriptions
          ++ record { agent_id = agent_id; topic = topic; subscribed_at = require_micros now } ∷ [];
    })

-- `Unsubscribe`.
unfoldable pub unsubscribe : String → String → Tx Db (Unit {0})
unfolding subscribes
unsubscribe agent_id topic = exec λ db. record db {
  subscriptions = select (λ r. not (subscribes agent_id topic r)) db.subscriptions;
}

-- `ORDER BY subscribed_at, agent_id`.
unfoldable pub subscribed_before : SubscriptionRow → SubscriptionRow → Bool
subscribed_before a b =
    if ltb a.subscribed_at b.subscribed_at
    then true
    else if ltb b.subscribed_at a.subscribed_at
    then false
    else text_lt a.agent_id b.agent_id

-- `Subscribers`.
unfoldable pub subscribers : String → Tx Db (List String)
unfolding subscribed_before
subscribers topic = query (λ db.
    map (λ r. r.agent_id)
      (order_by subscribed_before (select (λ r. r.topic == topic) db.subscriptions)))
