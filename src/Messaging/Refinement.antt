-- ===== src/Messaging/Refinement.antt =====
-- internal/service/messaging: the tables implement the mailboxes. A delivery belongs to a message that
-- is stored, the foreign key of the deliveries.
use lac.Base.{
  ℕ, suc, String, ◌==◌, Bool, true, false, not, ◌&&◌, ◌||◌, none, List, [], ◌∷◌, ◌≡◌, refl, sym,
  arith, exists, select, exists-append, exists-none, exists-select-alike, exists-update_where-same,
  eq_iff, ◌∙◌,
}
use lac.Base.Result.{Result, ok, err, run_tx, for_each, return}
use lac.Base.Ensures.{bind_cases}
use lac.Core.Time.{Time, require_micros}
use lac.Core.Message.{Message}
use lac.Store.{Db, MessageRow, DeliveryRow}
use lac.Store.Messages
use lac.Store.Messages.{
  outstanding, deliver, unread, read_row, owed, acked_row, earlier, prunable, row_of,
  unacknowledged, scan_message, sent_before,
}
use lac.Messaging.Post.{Service, SendRequest, Sent, run, send, acknowledge, subscribe, prune}
use lac.Messaging.Events.{sends}
use lac.Messaging.Sending.{sent_lem, unsent_lem, send_tx_lem}
use lac.Messaging.Durability.{acked_copy, append_lem, loop_keeps}
use lac.Messaging.Retention.{exists-kept}
use lac.Messaging.Mailboxes.{mailboxes, step, posting, change_of}
use lac.Messaging.MailboxSteps.{loop-mailboxes}

-- Every delivery belongs to a message that is stored.
unfoldable pub Referenced : Db → Type 0
Referenced db =
    (m : String)
    → exists (λ d. d.message_id == m) db.deliveries ≡ true
    → exists (λ x. x.id == m) db.messages ≡ true

deliver_copies :
    (m r i : String) (s t : Db)
    → deliver m r s ≡ ok (tt, t)
    → exists (λ d. d.message_id == i) t.deliveries ≡ true
    → (exists (λ d. d.message_id == i) s.deliveries || m == i) ≡ true
unfolding deliver run_tx exists
deliver_copies m r i s t h k = ground (
  arith,
  exists-append (λ d. d.message_id == i) s.deliveries
      (record { message_id = m; agent_id = r; delivered_at = none; acked_at = none } ∷ []),
)

module _ (m : String) where
  loop_copies :
      (i : String) (rs : List String) (s u : Db) (n : ℕ)
      → for_each (deliver m) rs s ≡ ok (n, u)
      → exists (λ d. d.message_id == i) u.deliveries ≡ true
      → (exists (λ d. d.message_id == i) s.deliveries || m == i) ≡ true
  unfolding for_each return
  loop_copies i [] s u n h k = let same : s ≡ u = ground arith in rw same ground arith
  loop_copies i (r ∷ rs) s u n h k =
      let (_, t, first, rest) = bind_cases (deliver m r) _ s u n h in
      let (j, t', more, last) =
        bind_cases (for_each (deliver m) rs) (λ k. return (suc k)) t u n rest in
      let same : t' ≡ u = ground arith in
      let all : for_each (deliver m) rs t ≡ ok (j, u) = rw same at more in
      ground (arith, loop_copies i rs t u j all k, deliver_copies m r i s t first)

append_refines :
    (message : Message) (recipients : List String) (s u : Db)
    → Referenced s
    → Messages.append message recipients s ≡ ok (tt, u)
    → Referenced u
      × ((a i : String)
          → mailboxes u a i
            ≡ (mailboxes s a i || (message.id == i && exists (λ r. r == a) recipients)))
unfolding Referenced mailboxes
append_refines message recipients s u kept h =
    let (v, n, free, added, alike, looped) = append_lem message recipients s u h in
    let (_, stays) = loop_keeps message.id "" "" recipients v u n looped in
    let none_acked : exists (acked_copy message.id) v.deliveries ≡ false = rw alike (
      exists-none (acked_copy message.id) (λ d. d.message_id == message.id) s.deliveries
        (λ d k. ground arith) (ground (arith, kept message.id))) in
    (
      λ i k.
          rw (stays, added, exists-append (λ x. x.id == i) s.messages (row_of message ∷ []))
            unfold exists row_of in
              ground (arith, alike, kept i, loop_copies message.id i recipients v u n looped k),
      λ a i. rw (← alike) (loop-mailboxes message.id a i recipients v u n looped none_acked),
    )

module _ (json_valid : String → Bool) (detail : Message → List String → String) where
  pub send_refines :
      (request : SendRequest) (message_id : String) (now : Time) (s : Service)
      → Referenced s.db
      → Referenced (send json_valid detail request message_id now s).1.db
        × ((a m : String)
            → mailboxes (send json_valid detail request message_id now s).1.db a m
              ≡ step
                  (change_of json_valid detail now (sends request message_id) s)
                  (mailboxes s.db)
                  a
                  m)
  unfolding change_of step
  send_refines request message_id now s kept =
      go (send json_valid detail request message_id now s) refl
    where
      go :
          (r : Result Sent × Service)
          → send json_valid detail request message_id now s ≡ r
          → Referenced r.1.db
            × ((a m : String) → mailboxes r.1.db a m ≡ step (posting r.0) (mailboxes s.db) a m)
      go (err e, t) h =
          rw (unsent_lem json_valid detail request message_id now s t e h) (kept, λ a m. refl)
      go (ok sent, t) h =
          let (u, _, _, stored, same, more) =
            send_tx_lem detail request _ sent.message sent.recipient_ids s.db t.db
              (sent_lem json_valid detail request message_id now s t sent h) in
          let (held, boxes) = append_refines sent.message sent.recipient_ids s.db u kept stored in
          (
            unfold Referenced in rw (same, more) (unfold Referenced in held),
            λ a m. unfold mailboxes in rw more (unfold mailboxes in boxes a m),
          )

pub acknowledge-Referenced :
    (reader : String) (ids : List String) (now : Time) (s : Service)
    → Referenced s.db
    → Referenced (acknowledge reader ids now s).1.db
unfolding acknowledge run run_tx Messages.acknowledge Referenced
acknowledge-Referenced reader [] now s kept = kept
acknowledge-Referenced reader (i ∷ ids) now s kept = λ m k. kept m (
    sym (
      exists-update_where-same (λ d. d.message_id == m) (owed reader (i ∷ ids)) (acked_row now)
        s.db.deliveries λ d. unfold acked_row in refl)
    ∙ k)

pub mark-Referenced :
    (reader : String) (ids : List String) (now : Time) (s : Service)
    → Referenced s.db
    → Referenced (run (Messages.mark_delivered reader ids now) s).1.db
unfolding run run_tx Messages.mark_delivered Referenced
mark-Referenced reader [] now s kept = kept
mark-Referenced reader (i ∷ ids) now s kept = λ m k. kept m (
    sym (
      exists-update_where-same (λ d. d.message_id == m) (unread reader (i ∷ ids)) (read_row now)
        s.db.deliveries λ d. unfold read_row in refl)
    ∙ k)

pub prune-Referenced : (now : Time) (s : Service) → Referenced s.db → Referenced (prune now s).1.db
unfolding prune run run_tx Messages.prune_expired Referenced
prune-Referenced now s kept m k =
    let gone : MessageRow → Bool =
      prunable (require_micros now) (require_micros (earlier now s.retention)) s.db.deliveries in
    let keep : DeliveryRow → Bool =
      λ d. not (exists (λ x. x.id == d.message_id && gone x) s.db.messages) in
    let survived : exists (λ d. d.message_id == m) (select keep s.db.deliveries) ≡ (
        exists (λ d. d.message_id == m) s.db.deliveries
        && not (exists (λ x. x.id == m && gone x) s.db.messages)) =
      exists-select-alike (λ d. d.message_id == m) keep
        (not (exists (λ x. x.id == m && gone x) s.db.messages)) s.db.deliveries
        λ d e.
          let same : d.message_id ≡ m = ground (arith, eq_iff d.message_id m) in rw same refl in
    exists-kept (λ x. x.id == m) gone s.db.messages (ground (arith, kept m)) ground arith

pub subscribe_lem :
    (agent topic : String) (now : Time) (s : Service)
    → ((subscribe agent topic now s).1.db.messages ≡ s.db.messages)
      × ((subscribe agent topic now s).1.db.deliveries ≡ s.db.deliveries)
unfolding subscribe run run_tx Messages.subscribe
subscribe_lem agent topic now s = ground arith
