-- ===== src/Messaging/Durability.antt =====
-- A message is kept for its recipients.
use lac.Base.{
  ℕ, suc, String, ◌==◌, Bool, true, false, not, ◌&&◌, none, List, [], ◌∷◌, ◌++◌, ◌≡◌, refl, arith,
  exists, All, exists-append, exists-none, eq_refl, ◌∙◌,
}
use lac.Base.Result.{
  ok, run_tx, for_each, exec, require, check, query, return, already_exists, invalid_argument,
}
use lac.Base.Ensures.{bind_cases, Reads-check, Reads-require}
use lac.Core.Time.{Time}
use lac.Core.Message.{Message}
use lac.Store.{Db, DeliveryRow}
use lac.Store.Leases.{is_null}
use lac.Store.Messages
use lac.Store.Messages.{outstanding, is_delivery, deliver, is_empty, row_of}
use lac.Messaging.Post.{Service, SendRequest, Sent, send, message_for}
use lac.Messaging.Sending.{sent_lem, send_tx_lem}

abbrev pub acked_copy : String → DeliveryRow → Bool
acked_copy message_id d = d.message_id == message_id && not (is_null d.acked_at)

abbrev pub new_copy : String → String → DeliveryRow
new_copy m r = record { message_id = m; agent_id = r; delivered_at = none; acked_at = none }

pub delivered_lem :
    (m r : String) (rows : List DeliveryRow)
    → exists (is_delivery m r) rows ≡ true
    → exists (acked_copy m) rows ≡ false
    → exists (outstanding r m) rows ≡ true
unfolding exists is_delivery outstanding
delivered_lem m r [] h k = ground arith
delivered_lem m r (d ∷ rows) h k = ground (arith, delivered_lem m r rows)

pub deliver_cases :
    (m r : String) (s t : Db)
    → deliver m r s ≡ ok (tt, t)
    → exists (acked_copy m) s.deliveries ≡ false
    → (exists (acked_copy m) t.deliveries ≡ false)
      × (exists (outstanding r m) t.deliveries ≡ true)
      × (t.messages ≡ s.messages)
unfolding deliver run_tx exists outstanding
deliver_cases m r s t h fresh = (
  ground (arith, exists-append (acked_copy m) s.deliveries (new_copy m r ∷ [])),
  ground (
    arith,
    delivered_lem m r s.deliveries,
    exists-append (outstanding r m) s.deliveries (new_copy m r ∷ []),
    eq_refl m,
    eq_refl r,
  ),
  ground arith,
)

deliver_keeps :
    (m r a i : String) (s t : Db)
    → deliver m r s ≡ ok (tt, t)
    → exists (outstanding a i) s.deliveries ≡ true
    → exists (outstanding a i) t.deliveries ≡ true
unfolding deliver run_tx
deliver_keeps m r a i s t h k =
    ground (arith, exists-append (outstanding a i) s.deliveries (new_copy m r ∷ []))

module _ (m : String) where
  pub loop_keeps :
      (a i : String) (rs : List String) (s u : Db) (n : ℕ)
      → for_each (deliver m) rs s ≡ ok (n, u)
      → (exists (outstanding a i) s.deliveries ≡ true
          → exists (outstanding a i) u.deliveries ≡ true)
        × (u.messages ≡ s.messages)
  unfolding for_each return
  loop_keeps a i [] s u n h = let same : s ≡ u = ground arith in rw (← same) (λ k. k, refl)
  loop_keeps a i (r ∷ rs) s u n h =
      let (_, t, first, rest) = bind_cases (deliver m r) _ s u n h in
      let (k, t', more, last) =
        bind_cases (for_each (deliver m) rs) (λ k. return (suc k)) t u n rest in
      let same : t' ≡ u = ground arith in
      let all : for_each (deliver m) rs t ≡ ok (k, u) = rw same at more in
      let (kept, stays) = loop_keeps a i rs t u k all in
      (λ e. kept (deliver_keeps m r a i s t first e), stays ∙ unfold deliver run_tx in ground arith)

  loop_delivers :
      (rs : List String) (s u : Db) (n : ℕ)
      → for_each (deliver m) rs s ≡ ok (n, u)
      → exists (acked_copy m) s.deliveries ≡ false
      → All (λ r. exists (outstanding r m) u.deliveries ≡ true) rs
  unfolding for_each return
  loop_delivers [] s u n h fresh = tt
  loop_delivers (r ∷ rs) s u n h fresh =
      let (_, t, first, rest) = bind_cases (deliver m r) _ s u n h in
      let (k, t', more, last) =
        bind_cases (for_each (deliver m) rs) (λ k. return (suc k)) t u n rest in
      let same : t' ≡ u = ground arith in
      let (still, here, _) = deliver_cases m r s t first fresh in
      let all : for_each (deliver m) rs t ≡ ok (k, u) = rw same at more in
      let (kept, _) = loop_keeps r m rs t u k all in (kept here, loop_delivers rs t u k all still)

-- What a successful `Append` did before its loop.
pub append_lem :
    (message : Message) (rs : List String) (s u : Db)
    → Messages.append message rs s ≡ ok (tt, u)
    → (v : Db) × (n : ℕ) × (exists (λ m. m.id == message.id) s.messages ≡ false)
      × (v.messages ≡ s.messages ++ row_of message ∷ [])
      × (v.deliveries ≡ s.deliveries)
      × (for_each (deliver message.id) rs v ≡ ok (n, u))
unfolding Messages.append
append_lem message rs s u h =
    let (_, s1, sound, h1) = bind_cases (check _) _ s u _ h in
    let (_, s2, some_one, h2) = bind_cases (require _ invalid_argument) _ s1 u _ h1 in
    let (taken, s3, asked, h3) = bind_cases (query _) _ s2 u _ h2 in
    let (_, s4, free, h4) = bind_cases (require _ already_exists) _ s3 u _ h3 in
    let (_, v, stored, h5) = bind_cases (exec _) _ s4 u _ h4 in
    let (n, u', looped, last) = bind_cases (for_each _ rs) _ v u _ h5 in
    let same : u' ≡ u = unfold run_tx in ground arith in
    let e1 : s1 ≡ s = (Reads-check _).same s s1 _ sound in
    let e2 : s2 ≡ s1 = (Reads-require _ _).same s1 s2 _ some_one in
    let e4 : s4 ≡ s3 = (Reads-require _ _).same s3 s4 _ free in
    (
      v,
      n,
      unfold run_tx in ground arith,
      unfold run_tx in ground arith,
      unfold run_tx in ground arith,
      rw same at looped,
    )

-- A message that is sent is stored, and every recipient has a copy that it has to acknowledge.
pub sent_message_reaches_its_recipients :
    (json_valid : String → Bool) (detail : Message → List String → String) (request : SendRequest)
    (message_id : String) (now : Time) (s t : Service) (sent : Sent)
    → exists (λ d. d.message_id == message_id) s.db.deliveries ≡ false
    → send json_valid detail request message_id now s ≡ (ok sent, t)
    → (exists (λ m. m.id == message_id) t.db.messages ≡ true)
      × All (λ r. exists (outstanding r message_id) t.db.deliveries ≡ true) sent.recipient_ids
sent_message_reaches_its_recipients json_valid detail request message_id now s t sent fresh h =
    let (u, _, same_id, stored, kept, more) =
      send_tx_lem detail request _ sent.message sent.recipient_ids s.db t.db
        (sent_lem json_valid detail request message_id now s t sent h) in
    let id : sent.message.id ≡ message_id = same_id ∙ unfold message_for in refl in
    let (v, n, _, added, alike, looped) =
      append_lem sent.message sent.recipient_ids s.db u stored in
    let (_, stays) = loop_keeps sent.message.id "" "" sent.recipient_ids v u n looped in
    let none_acked : exists (acked_copy sent.message.id) v.deliveries ≡ false =
      rw (alike, id)
        (exists-none (acked_copy message_id) (λ d. d.message_id == message_id) s.db.deliveries
          (λ d k. ground arith) fresh) in
    (
      rw
          (
            kept,
            stays,
            added,
            exists-append (λ m. m.id == message_id) s.db.messages (row_of sent.message ∷ []),
          )
          unfold exists row_of in ground (arith, id, eq_refl message_id),
      rw (more, ← id) (loop_delivers sent.message.id sent.recipient_ids v u n looped none_acked),
    )
