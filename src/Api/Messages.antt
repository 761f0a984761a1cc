-- ===== src/Api/Messages.antt =====
-- internal/api/messages.go: what agents tell each other. What the messaging service takes
-- from outside is an argument, as there.
use lac.Base.{ℕ, String, ◌==◌, not, Bool, Option, none, some, List, map, length, ℤ, if◌then◌else◌}
use lac.Base.Result.{Result, ok, err, invalid_argument}
use lac.Core.Time.{Time}
use lac.Core.Agent.{Agent}
use lac.Core.Message.{Message, MessageRecord}
use lac.Store.{Db, DeliveryRow}
use lac.Store.Messages.{is_empty}
use lac.Messaging.Post
use lac.Messaging.Post.{Sent}
use lac.Store.Agents
use lac.Auth.Authenticator.{broadcast, read_log}
use lac.Api.State.{Texts, Action, and_then, on_messaging, run, permit, name_of}

pub record MessageView : Type 0 where
  pub id : String
  pub from : String
  pub from_name : String
  pub to : String
  pub topic : String
  pub kind : String
  pub body : String
  pub created_at : String

-- `viewOfMessage`.
unfoldable pub view_of_message : Texts → Message → String → MessageView
view_of_message texts message sender_name = record {
  id = message.id;
  from = message.from_agent_id;
  from_name = sender_name;
  to = message.to_agent_id;
  topic = message.topic;
  kind = message.kind;
  body = message.body;
  created_at = texts.format_time message.created_at;
}

pub record SendParams : Type 0 where
  pub to : String
  pub topic : String
  pub kind : String
  pub body : String

pub record SendResult : Type 0 where
  pub message_id : String
  pub recipients : ℕ
  pub notified : ℕ

-- Exactly one of the two is set.
abbrev one_destination : SendParams → Bool
one_destination p = if p.to == "" then not (p.topic == "") else p.topic == ""

-- A topic is for those who may broadcast.
abbrev may_send : SendParams → Time → Agent → Action (Unit {0})
unfolding permit
may_send arguments now caller a =
    if not (arguments.topic == "")
    then permit caller broadcast arguments.topic now a
    else (ok tt, a)

-- `handleSend`.
unfoldable pub handle_send :
    (String → Bool)
    → (Message → List String → String)
    → SendParams
    → String
    → Time
    → Agent
    → Action SendResult
unfolding may_send on_messaging Post.send
handle_send json_valid detail arguments message_id now caller a =
    if not (one_destination arguments)
    then (err invalid_argument, a)
    else and_then (may_send arguments now caller a) λ _ a1.
      and_then
        (on_messaging
          (Post.send json_valid detail
            (record {
              from_agent_id = caller.id;
              to_agent_name = arguments.to;
              topic = arguments.topic;
              kind = arguments.kind;
              body = arguments.body;
            })
            message_id now)
          a1)
        λ (sent : Sent) a2. (
          ok (record {
            message_id = sent.message.id;
            recipients = length sent.recipient_ids;
            notified = sent.notified;
          }),
          a2,
        )

abbrev views_of_messages : Texts → Db → List Message → List MessageView
unfolding view_of_message name_of
views_of_messages texts db = map (λ m. view_of_message texts m (name_of m.from_agent_id db))

-- `handleInbox`: always the caller's own. `others` is what the others do between the two statements
-- of `Inbox`.
unfoldable pub handle_inbox :
    Texts → ℤ → (Post.Service → Post.Service) → Time → Agent → Action (List MessageView)
unfolding on_messaging views_of_messages Post.inbox
handle_inbox texts limit others now caller a =
    and_then (on_messaging (Post.inbox caller.id limit now others) a)
      λ messages a'. (ok (views_of_messages texts a'.db messages), a')

-- `handleAcknowledge`: how many were cleared.
unfoldable pub handle_acknowledge : List String → Time → Agent → Action ℕ
unfolding on_messaging Post.acknowledge
handle_acknowledge message_ids now caller a =
    if is_empty message_ids
    then (err invalid_argument, a)
    else on_messaging (Post.acknowledge caller.id message_ids now) a

-- `handleSubscribe`.
unfoldable pub handle_subscribe : String → Time → Agent → Action String
unfolding on_messaging Post.subscribe
handle_subscribe topic now caller a =
    and_then (on_messaging (Post.subscribe caller.id topic now) a) λ _ a'. (ok topic, a')

-- `handleUnsubscribe`.
unfoldable pub handle_unsubscribe : String → Agent → Action String
unfolding on_messaging Post.unsubscribe
handle_unsubscribe topic caller a =
    and_then (on_messaging (Post.unsubscribe caller.id topic) a) λ _ a'. (ok topic, a')

pub record LogParams : Type 0 where
  pub agent : String
  pub topic : String
  pub since : String
  pub limit : ℤ

pub record LoggedMessageView : Type 0 where
  pub message : MessageView
  pub recipients : List String
  pub delivered : ℕ
  pub acknowledged : ℕ

abbrev name_or_id : String → String → String
name_or_id agent_id name = if name == "" then agent_id else name

-- `viewOfRecord`.
unfoldable pub view_of_record : Texts → Db → MessageRecord → LoggedMessageView
unfolding view_of_message name_of
view_of_record texts db r = record {
  message = view_of_message texts r.message (name_of r.message.from_agent_id db);
  recipients = map (λ id. name_or_id id (name_of id db)) r.recipient_ids;
  delivered = r.delivered_count;
  acknowledged = r.acknowledged_count;
}

-- The agent that a name stands for; no name asks for everybody.
abbrev agent_filter : String → Action String
unfolding run
agent_filter name a =
    if name == ""
    then (ok "", a)
    else and_then (run (Agents.by_name name) a) λ (agent : Agent) a'. (ok agent.id, a')

abbrev since_read : Option (Option Time) → Result (Option Time)
since_read none = err invalid_argument
since_read (some since) = ok since

abbrev since_filter : Texts → String → Result (Option Time)
since_filter texts text = if text == "" then ok none else since_read (texts.read_time text)

-- `handleLog`, with the order in which the database visits deliveries.
unfoldable pub handle_log :
    (List DeliveryRow → List DeliveryRow)
    → Texts
    → LogParams
    → Time
    → Agent
    → Action (List LoggedMessageView)
unfolding permit on_messaging view_of_record agent_filter Post.log
handle_log visit texts arguments now caller a = and_then (permit caller read_log "" now a) λ _ a1.
    and_then (agent_filter arguments.agent a1) λ (agent_id : String) a2.
      and_then (since_filter texts arguments.since, a2)
        λ (since : Option Time) a3.
          and_then
            (on_messaging
              (Post.log visit (record {
                agent_id = agent_id;
                topic = arguments.topic;
                since = since;
                limit = arguments.limit;
              }))
              a3)
            λ records a4. (ok (map (view_of_record texts a4.db) records), a4)
