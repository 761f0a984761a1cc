-- ===== src/Messaging/Post.antt =====
-- internal/service/messaging/messaging.go: the service and its operations. Whether a
-- text is JSON is an argument, as is the detail of the audit entry.
use lac.Base.{
  ℕ, ◌+◌, String, ◌^^◌, ◌==◌, Bool, not, Option, none, some, List, [], ◌∷◌, map, ℤ, pos, le_ℤ,
  select, if◌then◌else◌,
}
use lac.Base.Result.{Tx, Result, ok, err, not_found, invalid_argument, ◌>>=◌, ◌>>◌, return, require}
use lac.Core.Time.{Time, Duration, add_duration}
use lac.Core.Name.{validate_name}
use lac.Core.Agent.{Agent, active}
use lac.Core.Audit.{AuditEntry, message_sent}
use lac.Core.Message.{Message, MessageFilter, MessageRecord, broadcast_topic, direct}
use lac.Store.{Db, DeliveryRow}
use lac.Store.Agents
use lac.Store.AuditLog
use lac.Store.MessageLog
use lac.Store.Messages
use lac.Store.Messages.{is_empty}
use lac.Store.Transaction.{in_transaction}

-- `Broadcast` of the notifier: how many sessions of the agent heard of the message.
pub record Service : Type 0 where
  pub db : Db
  pub default_time_to_live : Duration
  pub retention : Duration
  pub notifier : Option (Message → String → ℕ)

abbrev pub Action : Type 0 → Type 0
Action A = Service → Result A × Service

unfoldable pub run : {A : Type 0} → Tx Db A → Action A
unfolding in_transaction
run fn s = let (r, db') = in_transaction fn s.db in (r, record s { db = db' })

abbrev pub and_then : {A B : Type 0} → Result A × Service → (A → Action B) → Result B × Service
and_then (ok a, s) f = f a s
and_then (err e, s) f = (err e, s)

pub record SendRequest : Type 0 where
  pub from_agent_id : String
  pub to_agent_name : String
  pub topic : String
  pub kind : String
  pub body : String

pub record Sent : Type 0 where
  pub message : Message
  pub recipient_ids : List String
  pub notified : ℕ

unfoldable pub everyone_but : List Agent → String → List String
everyone_but agents sender_id =
    map (λ a. a.id) (select (λ (a : Agent). not (a.id == sender_id)) agents)

unfoldable pub without_sender : List String → String → List String
without_sender agent_ids sender_id = select (λ a. not (a == sender_id)) agent_ids

-- The agent of a name, also one that has gone quiet.
unfoldable pub recipient_named : String → Tx Db (List String)
recipient_named name = do recipient ← Agents.find_for_delivery name; return (recipient.id ∷ [])

-- The live agents, or the subscribers of the topic, without the sender.
unfoldable pub everyone_live : String → Tx Db (List String)
unfolding everyone_but
everyone_live sender_id = do
  agents ← Agents.list (record { states = active ∷ []; kinds = [] })
  return (everyone_but agents sender_id)

unfoldable pub listeners : String → String → Tx Db (List String)
unfolding without_sender
listeners topic sender_id = do
  subscribers ← Messages.subscribers topic
  return (without_sender subscribers sender_id)

-- `resolveRecipients`.
unfoldable pub resolve_recipients : SendRequest → String → Tx Db (List String)
resolve_recipients request sender_id =
    if not (request.to_agent_name == "")
    then recipient_named request.to_agent_name
    else if request.topic == broadcast_topic
    then everyone_live sender_id
    else listeners request.topic sender_id

-- `notify`.
unfoldable pub notify : Option (Message → String → ℕ) → Message → List String → ℕ
notify none message recipients = 0
notify (some broadcast) message [] = 0
notify (some broadcast) message (r ∷ rs) = broadcast message r + notify (some broadcast) message rs

-- `destinationOf`.
unfoldable pub destination_of : Message → String
unfolding direct
destination_of m = if direct m then m.to_agent_id else "topic:" ^^ m.topic

-- The message of `Send` before its recipients are known.
unfoldable pub message_for : Duration → SendRequest → String → Time → Message
message_for time_to_live request message_id now = record {
  id = message_id;
  from_agent_id = request.from_agent_id;
  to_agent_id = "";
  topic = request.topic;
  kind = request.kind;
  body = request.body;
  created_at = now;
  expires_at = if le_ℤ time_to_live (pos 0) then none else some (add_duration now time_to_live);
}

-- `message.ToAgentID = resolved[0]` when the request names an agent.
unfoldable pub addressed : SendRequest → List String → Message → Message
addressed request [] message = message
addressed request (r ∷ rs) message =
    if not (request.to_agent_name == "") then record message { to_agent_id = r } else message

-- The audit entry of a message; `detail` is its text.
abbrev pub entry_of : (Message → List String → String) → Message → List String → AuditEntry
unfolding destination_of
entry_of detail message recipients = record {
  actor = message.from_agent_id;
  action = message_sent;
  target = destination_of message;
  detail = detail message recipients;
  at = message.created_at;
}

-- The transaction of `Send`.
unfoldable pub send_tx :
    (Message → List String → String) → SendRequest → Message → Tx Db (Message × List String)
unfolding resolve_recipients destination_of addressed
send_tx detail request message = do
  recipients ← resolve_recipients request message.from_agent_id
  require (not (is_empty recipients)) not_found
  let sent = addressed request recipients message
  Messages.append sent recipients
  AuditLog.append (entry_of detail sent recipients)
  return (sent, recipients)

-- The end of `Send`.
unfoldable pub announce : Message × List String → Action Sent
unfolding notify
announce (message, recipients) s = (
  ok (record {
    message = message;
    recipient_ids = recipients;
    notified = notify s.notifier message recipients;
  }),
  s,
)

-- `Send`.
unfoldable pub send :
    (String → Bool) → (Message → List String → String) → SendRequest → String → Time → Action Sent
unfolding message_for
send json_valid detail request message_id now s = elim (validate_name request.kind) [
  | some e ↦ (err e, s)
  | none ↦
      if request.body == ""
      then (err invalid_argument, s)
      else if not (json_valid request.body)
      then (err invalid_argument, s)
      else and_then
          (run (send_tx detail request (message_for s.default_time_to_live request message_id now))
            s)
          announce
]

abbrev pub ids_of : List Message → List String
ids_of = map (λ m. m.id)

-- `Inbox`; its two statements are not one transaction. `others` is what the others do between them.
unfoldable pub inbox : String → ℤ → Time → (Service → Service) → Action (List Message)
unfolding run
inbox agent_id limit now others s =
    and_then (run (Messages.pending agent_id limit) s) λ messages s1.
      if is_empty messages
      then (ok messages, s1)
      else and_then (run (Messages.mark_delivered agent_id (ids_of messages) now) (others s1))
          λ _ s2. (ok messages, s2)

-- `Acknowledge`.
unfoldable pub acknowledge : String → List String → Time → Action ℕ
unfolding run
acknowledge agent_id message_ids now = run (Messages.acknowledge agent_id message_ids now)

-- `Subscribe`.
unfoldable pub subscribe : String → String → Time → Action (Unit {0})
unfolding run
subscribe agent_id topic now s =
    if topic == broadcast_topic
    then (err invalid_argument, s)
    else run (Messages.subscribe agent_id topic now) s

-- `Unsubscribe`.
unfoldable pub unsubscribe : String → String → Action (Unit {0})
unfolding run
unsubscribe agent_id topic = run (Messages.unsubscribe agent_id topic)

-- `Log`, with the order in which the database visits deliveries.
unfoldable pub log :
    (List DeliveryRow → List DeliveryRow) → MessageFilter → Action (List MessageRecord)
unfolding run
log visit filter = run (MessageLog.list visit filter)

-- `Prune`.
unfoldable pub prune : Time → Action ℕ
unfolding run
prune now s = run (Messages.prune_expired now s.retention) s
