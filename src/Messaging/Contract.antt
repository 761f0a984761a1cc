-- ===== src/Messaging/Contract.antt =====
-- internal/service/messaging: over a history, the service and its inboxes are the mailboxes.
use lac.Base.{
  String, ◌==◌, Bool, true, List, [], ◌∷◌, ◌≡◌, refl, sym, arith, exists, select, order_by,
  exists-implied, exists-select-alike, exists-map, exists-count_where, count_where-exists,
  count_where-order_by, eq_iff, ◌∙◌, Bool-cases, inl, inr,
}
use lac.Base.Result.{run_tx}
use lac.Core.Time.{Time}
use lac.Core.Message.{Message}
use lac.Store.{Db, MessageRow}
use lac.Store.Messages
use lac.Store.Messages.{outstanding, unacknowledged, scan_message, sent_before}
use lac.Messaging.Post.{Service, run, unsubscribe}
use lac.Messaging.Events.{
  Event, sends, marks, acknowledges, subscribes, unsubscribes, prunes, apply, replay,
}
use lac.Messaging.Mailboxes.{mailboxes, step, follow, change_of, changes_of}
use lac.Messaging.MailboxSteps.{acknowledge-mailboxes, mark-mailboxes, prune-mailboxes}
use lac.Messaging.Refinement.{
  Referenced, send_refines, acknowledge-Referenced, mark-Referenced, prune-Referenced,
  subscribe_lem,
}

exists-order_by :
    {A : Type 0} (before : A → A → Bool) (p : A → Bool) (xs : List A)
    → exists p (order_by before xs) ≡ exists p xs
exists-order_by before p xs = elim (Bool-cases (exists p (order_by before xs))) [
  | inl e ↦
      e
      ∙ sym (
          exists-count_where p xs (
            ground (
              arith,
              count_where-order_by before p xs,
              count_where-exists p (order_by before xs) e,
            )))
  | inr e ↦ elim (Bool-cases (exists p xs)) [
    | inl k ↦
        exists-count_where p (order_by before xs)
          (ground (arith, count_where-order_by before p xs, count_where-exists p xs k))
        ∙ sym k
    | inr k ↦ e ∙ sym k
  ]
]

same_tables :
    (s t : Db)
    → t.messages ≡ s.messages
    → t.deliveries ≡ s.deliveries
    → Referenced s
    → Referenced t × (mailboxes t ≡ mailboxes s)
unfolding Referenced mailboxes
same_tables s t messages deliveries kept = (rw (messages, deliveries) kept, rw deliveries refl)

-- A message has a row with a delivery only if it is stored.
stored :
    (agent m : String) (db : Db)
    → Referenced db
    → mailboxes db agent m ≡ true
    → exists (λ x. x.id == m) db.messages ≡ true
unfolding Referenced mailboxes
stored agent m db kept owing = kept m (
    exists-implied (outstanding agent m) (λ d. d.message_id == m) db.deliveries
      (λ d e. unfold outstanding in ground arith) owing)

inbox-mailboxes :
    (agent m : String) (db : Db)
    → Referenced db
    → exists (λ x. x.id == m) (unacknowledged agent db) ≡ mailboxes db agent m
unfolding unacknowledged
inbox-mailboxes agent m db kept =
    let owes : MessageRow → Bool = λ x. exists (outstanding agent x.id) db.deliveries in
    exists-map (λ x. x.id == m) scan_message (order_by sent_before (select owes db.messages))
    ∙ (unfold scan_message in
        exists-order_by sent_before (λ x. x.id == m) (select owes db.messages))
    ∙ exists-select-alike (λ x. x.id == m) owes (mailboxes db agent m) db.messages
        (λ x e.
          let same : x.id ≡ m = ground (arith, eq_iff x.id m) in rw same unfold mailboxes in refl)
    ∙ ground (arith, stored agent m db kept)

module _ (json_valid : String → Bool) (detail : Message → List String → String) where
  apply_refines :
      (now : Time) (e : Event) (s : Service)
      → Referenced s.db
      → Referenced (apply json_valid detail now e s).db
        × (mailboxes (apply json_valid detail now e s).db
            ≡ step (change_of json_valid detail now e s) (mailboxes s.db))
  unfolding apply
  apply_refines now (sends request id) s kept =
      let (held, boxes) = send_refines json_valid detail request id now s kept in
      (held, λ i a m. boxes a m i)
  apply_refines now (marks reader ids) s kept = (
    mark-Referenced reader ids now s kept,
    unfold change_of step in λ i a m. mark-mailboxes reader ids now s a m i,
  )
  apply_refines now (acknowledges reader ids) s kept = (
    acknowledge-Referenced reader ids now s kept,
    unfold change_of step in λ i a m. acknowledge-mailboxes reader ids now s a m i,
  )
  apply_refines now (subscribes reader topic) s kept =
      let (messages, deliveries) = subscribe_lem reader topic now s in
      let (held, boxes) = same_tables s.db _ messages deliveries kept in
      (held, unfold change_of step in boxes)
  apply_refines now (unsubscribes reader topic) s kept = (
    unfold unsubscribe run run_tx Messages.unsubscribe Referenced in (unfold Referenced in kept),
    unfold unsubscribe run run_tx Messages.unsubscribe change_of step mailboxes in refl,
  )
  apply_refines now prunes s kept =
      (prune-Referenced now s kept, unfold change_of step in λ i a m. prune-mailboxes now s a m i)

  replay_refines :
      (es : List (Time × Event)) (s : Service)
      → Referenced s.db
      → Referenced (replay json_valid detail es s).db
        × (mailboxes (replay json_valid detail es s).db
            ≡ follow (changes_of json_valid detail es s) (mailboxes s.db))
  unfolding replay changes_of follow
  replay_refines [] s kept = (kept, refl)
  replay_refines ((now, e) ∷ es) s kept =
      let t = apply json_valid detail now e s in
      let (held, moved) = apply_refines now e s kept in
      let (end, boxes) = replay_refines es t held in
      (end, boxes ∙ λ i. follow (changes_of json_valid detail es t) (moved i))

  -- The service implements the mailboxes. Over any history from a state in which every delivery
  -- belongs to a stored message, the mailboxes follow the changes that the events stand for: a
  -- successful sending adds its message for its recipients, an acknowledgement takes the messages
  -- named out of its agent's mailbox, a pruning takes out the messages that it deletes, and nothing
  -- else changes any. The inbox of an agent then lists just the messages in its mailbox.
  pub service_refines_mailboxes :
      (es : List (Time × Event)) (s : Service)
      → Referenced s.db
      → (mailboxes (replay json_valid detail es s).db
          ≡ follow (changes_of json_valid detail es s) (mailboxes s.db))
        × ((agent m : String)
            → exists (λ x. x.id == m) (unacknowledged agent (replay json_valid detail es s).db)
              ≡ follow (changes_of json_valid detail es s) (mailboxes s.db) agent m)
  service_refines_mailboxes es s kept =
      let (held, boxes) = replay_refines es s kept in
      (
        boxes,
        λ agent m.
            inbox-mailboxes agent m (replay json_valid detail es s).db held ∙ λ i. boxes i agent m,
      )
