-- ===== src/Store/MessageLog.antt =====
-- internal/store/sqlite/messages.go: the operator's view of the messages. The order in which the
-- database visits the deliveries of a message is an argument; identifiers of agents are not empty.
use lac.Base.{
  ℕ, zero, suc, ◌==◌, Bool, true, not, ◌&&◌, ◌||◌, Option, none, some, List, map, leb, exists,
  select, count_where, order_by, ℤ, pos, negsuc,
}
use lac.Base.Result.{Tx, query}
use lac.Core.Time.{Time, require_micros}
use lac.Core.Message.{MessageFilter, MessageRecord}
use lac.Store.{Db, MessageRow, DeliveryRow, from_null_string}
use lac.Store.Leases.{is_null}
use lac.Store.Messages.{scan_message, sent_before, take}

-- A limit that is not positive is `defaultLogLimit`.
unfoldable pub log_limit : ℤ → ℕ
log_limit (pos zero) = 50
log_limit (pos (suc n)) = suc n
log_limit (negsuc n) = 50

abbrev since_then : Option Time → MessageRow → Bool
since_then none m = true
since_then (some since) m = leb (require_micros since) m.created_at

-- The conditions of `List`: what the agent sent or was sent, the topic, and the time.
unfoldable pub listed : MessageFilter → List DeliveryRow → MessageRow → Bool
unfolding from_null_string
listed filter deliveries m =
    (filter.agent_id == ""
      || m.from_agent_id == filter.agent_id
      || exists (λ d. d.message_id == m.id && d.agent_id == filter.agent_id) deliveries)
    && (filter.topic == "" || from_null_string m.topic == filter.topic)
    && since_then filter.since m

-- `scanMessageRecord`, with what the query counts.
unfoldable pub scan_record :
    (List DeliveryRow → List DeliveryRow) → List DeliveryRow → MessageRow → MessageRecord
unfolding scan_message
scan_record visit deliveries m = record {
  message = scan_message m;
  recipient_ids = map (λ d. d.agent_id) (visit (select (λ d. d.message_id == m.id) deliveries));
  delivered_count =
      count_where (λ d. d.message_id == m.id && not (is_null d.delivered_at)) deliveries;
  acknowledged_count =
      count_where (λ d. d.message_id == m.id && not (is_null d.acked_at)) deliveries;
}

-- `List`: the latest first.
unfoldable pub list :
    (List DeliveryRow → List DeliveryRow) → MessageFilter → Tx Db (List MessageRecord)
unfolding listed scan_record log_limit take sent_before
list visit filter = query λ db. map (scan_record visit db.deliveries) (
    take (log_limit filter.limit)
      (order_by (λ a b. sent_before b a) (select (listed filter db.deliveries) db.messages)))
