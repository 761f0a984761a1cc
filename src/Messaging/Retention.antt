-- ===== src/Messaging/Retention.antt =====
-- How long a message is kept, over histories of the messaging service.
use lac.Base.{
  ℕ, ◌≤◌, String, ◌==◌, Bool, true, false, not, ◌&&◌, Option, none, some, List, [], ◌∷◌, ◌≡◌, refl,
  arith, exists, select, order_by, All, exists-append, exists-none, exists-select, exists-map,
  exists-count_where, count_where-exists, count_where, count_where-order_by, Bool-cases, inl, inr,
  exists-select-none, exists-implied, exists-update_where-same, exists-update_where-apart, eq_refl,
  eq_iff, ◌∙◌,
}
use lac.Base.Result.{Result, ok, err, run_tx}
use lac.Core.Time.{Time, require_micros}
use lac.Core.Message.{Message}
use lac.Store.{Db, MessageRow, DeliveryRow}
use lac.Store.Leases.{is_null}
use lac.Store.Messages
use lac.Messaging.Post.{
  Service, SendRequest, Sent, run, send, prune, acknowledge, subscribe, unsubscribe,
}
use lac.Messaging.Events.{
  Event, sends, marks, acknowledges, subscribes, unsubscribes, prunes, apply, replay,
}
use lac.Messaging.Sending.{sent_lem, unsent_lem, send_tx_lem}
use lac.Messaging.Durability.{append_lem, loop_keeps}
use lac.Store.Messages.{
  outstanding, due, prunable, unread, read_row, owed, acked_row, earlier, row_of, unacknowledged,
  scan_message, sent_before,
}

-- The agent has not acknowledged the message, which does not expire before the deadline.
abbrev pub Waits : String → String → Time → Db → Type 0
Waits agent m deadline db =
    (exists (λ x. x.id == m) db.messages ≡ true)
    × (exists (λ x. x.id == m && due (require_micros deadline) x.expires_at) db.messages ≡ false)
    × (exists (outstanding agent m) db.deliveries ≡ true)

pub exists-kept :
    {A : Type 0} (p gone : A → Bool) (xs : List A)
    → exists p xs ≡ true
    → exists (λ x. p x && gone x) xs ≡ false
    → exists p (select (λ x. not (gone x)) xs) ≡ true
unfolding exists select
exists-kept p gone [] h k = h
exists-kept p gone (x ∷ xs) h k = ground (arith, exists-kept p gone xs)

due_mono :
    (now deadline : Time) (o : Option ℕ)
    → now ≤ deadline
    → due (require_micros now) o ≡ true
    → due (require_micros deadline) o ≡ true
unfolding require_micros
due_mono now deadline none h k = k
due_mono now deadline (some e) h k = ground arith

kept_copies :
    (agent m : String) (ds : List DeliveryRow) (xs : List MessageRow)
    → exists (λ x. x.id == m) xs ≡ true
    → exists (outstanding agent m) ds ≡ true
    → count_where (λ x. x.id == m) (select (λ x. exists (outstanding agent x.id) ds) xs)
      ≡ count_where (λ x. x.id == m) xs
unfolding exists select count_where
kept_copies agent m ds [] h k = refl
kept_copies agent m ds xs h k = counted xs
  where
    counted :
        (ys : List MessageRow)
        → count_where (λ x. x.id == m) (select (λ x. exists (outstanding agent x.id) ds) ys)
          ≡ count_where (λ x. x.id == m) ys
    counted [] = refl
    counted (y ∷ ys) = elim (Bool-cases (y.id == m)) [
      | inl e ↦
          let same : y.id ≡ m = ground (arith, eq_iff y.id m) in
          let owing : exists (outstanding agent y.id) ds ≡ true = rw same k in
          ground (arith, counted ys)
      | inr e ↦ ground (arith, counted ys)
    ]

pub in_the_inbox :
    (agent m : String) (db : Db)
    → exists (λ x. x.id == m) db.messages ≡ true
    → exists (outstanding agent m) db.deliveries ≡ true
    → exists (λ x. x.id == m) (unacknowledged agent db) ≡ true
unfolding unacknowledged
in_the_inbox agent m db here owing =
    let found : List MessageRow =
      select (λ x. exists (outstanding agent x.id) db.deliveries) db.messages in
    rw (exists-map (λ x. x.id == m) scan_message (order_by sent_before found)) (
      unfold scan_message in
      exists-count_where (λ x. x.id == m) (order_by sent_before found)
        (ground (
          arith,
          count_where-order_by sent_before (λ x. x.id == m) found,
          kept_copies agent m db.deliveries db.messages here owing,
          count_where-exists (λ x. x.id == m) db.messages here,
        )))

module _ (agent m : String) (deadline : Time) where
  spared :
      (now : Time) (cutoff : ℕ) (db : Db)
      → now ≤ deadline
      → Waits agent m deadline db
      → exists (λ x. x.id == m && prunable (require_micros now) cutoff db.deliveries x) db.messages
        ≡ false
  unfolding prunable
  spared now cutoff db h (_, lasting, owing) =
      exists-none _ _ db.messages
        (λ x k. ground (
          arith,
          due_mono now deadline x.expires_at h,
          eq_iff x.id m,
          exists-implied (outstanding agent m) (λ d. d.message_id == x.id && is_null d.acked_at)
              db.deliveries (λ d e. unfold outstanding in ground (arith, eq_iff x.id m)) owing,
        ))
        lasting

  owner : (d : DeliveryRow) → outstanding agent m d ≡ true → d.message_id ≡ m
  unfolding outstanding
  owner d e = ground (arith, eq_iff d.message_id m)

  Waits-prune :
      (now : Time) (s : Service)
      → now ≤ deadline
      → Waits agent m deadline s.db
      → Waits agent m deadline (prune now s).1.db
  unfolding prune run run_tx Messages.prune_expired
  Waits-prune now s h (here, lasting, owing) =
      let cutoff = require_micros (earlier now s.retention) in
      let kept = spared now cutoff s.db h (here, lasting, owing) in
      (
        exists-kept (λ x. x.id == m) _ s.db.messages here kept,
        exists-select-none _ _ s.db.messages lasting,
        exists-select (outstanding agent m) _ s.db.deliveries
              (λ d e. ground (arith, owner d e, kept))
            ∙ owing,
      )

  Waits-mark :
      (reader : String) (ids : List String) (now : Time) (s : Service)
      → Waits agent m deadline s.db
      → Waits agent m deadline (run (Messages.mark_delivered reader ids now) s).1.db
  unfolding run run_tx Messages.mark_delivered
  Waits-mark reader [] now s w = w
  Waits-mark reader (i ∷ ids) now s (here, lasting, owing) = (
    here,
    lasting,
    exists-update_where-same (outstanding agent m) (unread reader (i ∷ ids)) (read_row now)
          s.db.deliveries (λ d. unfold outstanding read_row in refl)
        ∙ owing,
  )

  Waits-acknowledge :
      (reader : String) (ids : List String) (now : Time) (s : Service)
      → (reader == agent && exists (λ i. i == m) ids) ≡ false
      → Waits agent m deadline s.db
      → Waits agent m deadline (acknowledge reader ids now s).1.db
  unfolding acknowledge run run_tx Messages.acknowledge
  Waits-acknowledge reader [] now s h w = w
  Waits-acknowledge reader (i ∷ ids) now s h (here, lasting, owing) = (
    here,
    lasting,
    exists-update_where-apart (outstanding agent m) (owed reader (i ∷ ids)) (acked_row now)
        s.db.deliveries
        (λ d e.
          unfold outstanding owed in
          ground (
            arith,
            eq_iff d.message_id m,
            eq_iff d.agent_id agent,
            eq_iff d.agent_id reader,
            eq_refl agent,
          ))
        owing,
  )

  Waits-subscribe :
      (reader topic : String) (now : Time) (s : Service)
      → Waits agent m deadline s.db
      → Waits agent m deadline (subscribe reader topic now s).1.db
  unfolding subscribe run run_tx Messages.subscribe
  Waits-subscribe reader topic now s w = ground arith

  Waits-append :
      (message : Message) (recipients : List String) (s u : Db)
      → Waits agent m deadline s
      → Messages.append message recipients s ≡ ok (tt, u)
      → Waits agent m deadline u
  unfolding exists row_of
  Waits-append message recipients s u (here, lasting, owing) h =
      let (v, n, free, added, alike, looped) = append_lem message recipients s u h in
      let (kept, stays) = loop_keeps message.id agent m recipients v u n looped in
      let other : (message.id == m) ≡ false = elim (Bool-cases (message.id == m)) [
        | inl e ↦ absurd (
            let same : message.id ≡ m = ground (arith, eq_iff message.id m) in
            let none_there : exists (λ x. x.id == m) s.messages ≡ false = rw same at free in
            ground arith)
        | inr e ↦ e
      ] in
      (
        rw (stays, added, exists-append (λ x. x.id == m) s.messages (row_of message ∷ [])) ground
            arith,
        rw
            (
              stays,
              added,
              exists-append (λ x. x.id == m && due (require_micros deadline) x.expires_at)
                  s.messages (row_of message ∷ []),
            )
            ground arith,
        kept (rw alike owing),
      )

  Waits-send :
      (json_valid : String → Bool) (detail : Message → List String → String) (request : SendRequest)
      (message_id : String) (now : Time) (s : Service)
      → Waits agent m deadline s.db
      → Waits agent m deadline (send json_valid detail request message_id now s).1.db
  Waits-send json_valid detail request message_id now s w =
      go (send json_valid detail request message_id now s) refl
    where
      go :
          (r : Result Sent × Service)
          → send json_valid detail request message_id now s ≡ r
          → Waits agent m deadline r.1.db
      go (err e, t) h = rw (unsent_lem json_valid detail request message_id now s t e h) w
      go (ok sent, t) h =
          let (u, _, _, stored, kept, more) =
            send_tx_lem detail request _ sent.message sent.recipient_ids s.db t.db
              (sent_lem json_valid detail request message_id now s t sent h) in
          rw (kept, more) (Waits-append sent.message sent.recipient_ids s.db u w stored)

  -- The agent does not acknowledge the message, and nothing is pruned after the deadline.
  abbrev pub Spares : Time × Event → Type 0
  Spares (now, acknowledges reader ids) = (reader == agent && exists (λ i. i == m) ids) ≡ false
  Spares (now, prunes) = now ≤ deadline
  Spares (now, e) = Unit

  module _ (json_valid : String → Bool) (detail : Message → List String → String) where
    Waits-apply :
        (now : Time) (e : Event) (s : Service)
        → Spares (now, e)
        → Waits agent m deadline s.db
        → Waits agent m deadline (apply json_valid detail now e s).db
    unfolding apply
    Waits-apply now (sends request id) s h w = Waits-send json_valid detail request id now s w
    Waits-apply now (marks reader ids) s h w = Waits-mark reader ids now s w
    Waits-apply now (acknowledges reader ids) s h w = Waits-acknowledge reader ids now s h w
    Waits-apply now (subscribes reader topic) s h w = Waits-subscribe reader topic now s w
    Waits-apply now (unsubscribes reader topic) s h w =
        unfold unsubscribe run run_tx Messages.unsubscribe in w
    Waits-apply now prunes s h w = Waits-prune now s h w

    Waits-replay :
        (es : List (Time × Event)) (s : Service)
        → All Spares es
        → Waits agent m deadline s.db
        → Waits agent m deadline (replay json_valid detail es s).db
    unfolding replay
    Waits-replay [] s h w = w
    Waits-replay ((now, e) ∷ es) s h w =
        Waits-replay es (apply json_valid detail now e s) h.1 (Waits-apply now e s h.0 w)

    -- A message waits for its recipient: over any history in which the agent does not acknowledge it
    -- and nothing is pruned once it expired, it stays in the agent's inbox, whatever all agents
    -- send, read, acknowledge or subscribe to, and however often the daemon prunes before that.
    pub message_stays_in_the_inbox :
        (es : List (Time × Event)) (s : Service)
        → All Spares es
        → Waits agent m deadline s.db
        → exists (λ x. x.id == m) (unacknowledged agent (replay json_valid detail es s).db) ≡ true
    message_stays_in_the_inbox es s h w =
        let (here, _, owing) = Waits-replay es s h w in
        in_the_inbox agent m (replay json_valid detail es s).db here owing
