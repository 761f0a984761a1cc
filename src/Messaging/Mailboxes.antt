-- ===== src/Messaging/Mailboxes.antt =====
-- internal/service/messaging: what the service promises, without its tables. Each agent has a mailbox
-- of the messages that it has not acknowledged; a message that is sent arrives in the mailboxes of its
-- recipients, and leaves one when its agent acknowledges it or the daemon prunes it.
use lac.Base.{String, ◌==◌, Bool, not, ◌&&◌, ◌||◌, List, [], ◌∷◌, exists}
use lac.Base.Result.{Result, ok, err}
use lac.Core.Time.{Time, require_micros}
use lac.Core.Message.{Message}
use lac.Store.{Db}
use lac.Store.Messages.{outstanding, prunable, earlier}
use lac.Messaging.Post.{Service, Sent, send}
use lac.Messaging.Events.{
  Event, sends, marks, acknowledges, subscribes, unsubscribes, prunes, apply,
}

-- Whether a message waits in the mailbox of an agent.
abbrev pub Mailboxes : Type 0
Mailboxes = String → String → Bool

pub data Change : Type 0 where
  posted : String → List String → Change
  receipted : String → List String → Change
  dropped : (String → Bool) → Change
  unchanged : Change

unfoldable pub step : Change → Mailboxes → Mailboxes
step (posted id recipients) boxes agent m =
    boxes agent m || (id == m && exists (λ r. r == agent) recipients)
step (receipted reader ids) boxes agent m =
    boxes agent m && not (reader == agent && exists (λ i. i == m) ids)
step (dropped gone) boxes agent m = boxes agent m && not (gone m)
step unchanged boxes agent m = boxes agent m

unfoldable pub follow : List Change → Mailboxes → Mailboxes
follow [] boxes = boxes
follow (c ∷ cs) boxes = follow cs (step c boxes)

-- The mailboxes that the tables hold.
unfoldable pub mailboxes : Db → Mailboxes
mailboxes db agent m = exists (outstanding agent m) db.deliveries

-- The identifiers of the messages that a pruning deletes.
unfoldable pub pruned : Time → Service → String → Bool
pruned now s m =
    exists
      (λ x.
        x.id == m
        && prunable (require_micros now) (require_micros (earlier now s.retention)) s.db.deliveries
            x)
      s.db.messages

abbrev pub posting : Result Sent → Change
posting (ok sent) = posted sent.message.id sent.recipient_ids
posting (err e) = unchanged

module _ (json_valid : String → Bool) (detail : Message → List String → String) where
  -- What an event is to the mailboxes: a message that cannot be sent changes none.
  unfoldable pub change_of : Time → Event → Service → Change
  change_of now (sends request message_id) s =
      posting (send json_valid detail request message_id now s).0
  change_of now (acknowledges agent ids) s = receipted agent ids
  change_of now prunes s = dropped (pruned now s)
  change_of now (marks agent ids) s = unchanged
  change_of now (subscribes agent topic) s = unchanged
  change_of now (unsubscribes agent topic) s = unchanged

  unfoldable pub changes_of : List (Time × Event) → Service → List Change
  changes_of [] s = []
  changes_of ((now, e) ∷ es) s = change_of now e s ∷ changes_of es (apply json_valid detail now e s)
