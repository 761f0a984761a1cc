-- ===== src/Messaging/Events.antt =====
-- Histories of the messaging service: each event is one operation of messaging.go at a time of the
-- clock. Of the two statements of `Inbox` only the second, the marking, changes anything; it is an
-- event of its own, so that the others may act between the two.
use lac.Base.{String, Bool, List, [], ◌∷◌}
use lac.Core.Time.{Time}
use lac.Core.Message.{Message}
use lac.Store.Messages
use lac.Messaging.Post.{Service, SendRequest, send, acknowledge, subscribe, unsubscribe, prune, run}

pub data Event : Type 0 where
  sends : SendRequest → String → Event
  marks acknowledges : String → List String → Event
  subscribes unsubscribes : String → String → Event
  prunes : Event

module _ (json_valid : String → Bool) (detail : Message → List String → String) where
  unfoldable pub apply : Time → Event → Service → Service
  apply now (sends request message_id) s = (send json_valid detail request message_id now s).1
  apply now (marks agent ids) s = (run (Messages.mark_delivered agent ids now) s).1
  apply now (acknowledges agent ids) s = (acknowledge agent ids now s).1
  apply now (subscribes agent topic) s = (subscribe agent topic now s).1
  apply now (unsubscribes agent topic) s = (unsubscribe agent topic s).1
  apply now prunes s = (prune now s).1

  unfoldable pub replay : List (Time × Event) → Service → Service
  unfolding apply
  replay [] s = s
  replay ((now, e) ∷ es) s = replay es (apply now e s)
