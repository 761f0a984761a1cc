-- ===== src/Messaging/Tests.antt =====
-- The theorems of messaging at a small example: a note of alice's that bob has not acknowledged, and
-- a message of hers to a topic that both subscribe to.
use lac.Base.{
  ℕ, String, ◌==◌, Bool, true, none, some, List, [], ◌∷◌, ◌≡◌, refl, pos, arith, exists, select,
  order_by,
}
use lac.Base.Result.{run_tx}
use lac.Core.Time.{Time}
use lac.Core.Message.{Message}
use lac.Core.Message
use lac.Core.Name.{validate_name}
use lac.Store.{MessageRow, DeliveryRow, SubscriptionRow}
use lac.Store.Messages
use lac.Store.Messages.{
  unacknowledged, scan_message, outstanding, sent_before, row_of, acked_row, deliver, is_delivery,
  subscribed_before, inbox_limit, take,
}
use lac.Store.AuditLog
use lac.Leasing.Example.{idle_db}
use lac.Messaging.Post.{
  Service, SendRequest, send, send_tx, run, message_for, addressed, resolve_recipients, listeners,
  without_sender, announce, notify, destination_of,
}
use lac.Messaging.Events.{Event, sends, acknowledges, prunes, marks, replay, apply}
use lac.Messaging.Retention.{message_stays_in_the_inbox}
use lac.Messaging.Mailboxes.{posted, receipted, unchanged, mailboxes, follow, change_of, changes_of}
use lac.Messaging.Refinement.{Referenced}
use lac.Messaging.Contract.{service_refines_mailboxes}

abbrev note : MessageRow
note = record {
  id = "m1";
  from_agent_id = "alice";
  to_agent_id = some "bob";
  topic = none;
  kind = "note";
  body = "1";
  created_at = 0;
  expires_at = none;
}

abbrev copy : DeliveryRow
copy = record { message_id = "m1"; agent_id = "bob"; delivered_at = none; acked_at = none }

abbrev subscription : String → ℕ → SubscriptionRow
subscription agent at = record { agent_id = agent; topic = "news"; subscribed_at = at }

abbrev post : Service
post = record {
  db = record idle_db {
    messages = note ∷ [];
    deliveries = copy ∷ [];
    subscriptions = subscription "alice" 0 ∷ subscription "bob" 1 ∷ [];
  };
  default_time_to_live = pos 0;
  retention = pos 0;
  notifier = none;
}

abbrev json_valid : String → Bool
json_valid body = true

abbrev detail : Message → List String → String
detail message recipients = ""

abbrev history : List (Time × Event)
history = (1, acknowledges "alice" ("m1" ∷ [])) ∷ (2, prunes) ∷ (3, marks "bob" ("m1" ∷ [])) ∷ []

message_stays_in_the_inbox_example :
    exists (λ x. x.id == "m1") (unacknowledged "bob" (replay json_valid detail history post).db)
    ≡ true
unfolding exists outstanding
message_stays_in_the_inbox_example =
    message_stays_in_the_inbox "bob" "m1" 10 json_valid detail history post
      (refl, (omega arith, (tt, tt))) (refl, refl, refl)

abbrev request : SendRequest
request = record {
  from_agent_id = "alice";
  to_agent_name = "";
  topic = "news";
  kind = "note";
  body = "1";
}

abbrev correspondence : List (Time × Event)
correspondence =
    (1, sends request "m2")
    ∷ (2, acknowledges "bob" ("m1" ∷ []))
    ∷ (3, marks "bob" ("m2" ∷ []))
    ∷ []

-- Bob has the message that alice sends to the topic, and no longer the one that he acknowledged.
service_refines_mailboxes_example :
    let changes = posted "m2" ("bob" ∷ []) ∷ receipted "bob" ("m1" ∷ []) ∷ unchanged ∷ [] in
    let t = replay json_valid detail correspondence post in
    (mailboxes t.db ≡ follow changes (mailboxes post.db))
    × ((agent m : String)
        → exists (λ x. x.id == m) (unacknowledged agent t.db)
          ≡ follow changes (mailboxes post.db) agent m)
unfolding changes_of change_of apply send run send_tx run_tx message_for addressed
    resolve_recipients listeners without_sender announce notify Messages.append Messages.subscribers
    AuditLog.append Message.validate validate_name deliver is_delivery subscribed_before select
    exists order_by row_of destination_of Referenced
service_refines_mailboxes_example =
    service_refines_mailboxes json_valid detail correspondence post λ m k. k
