-- ===== src/Messaging/Sending.antt =====
-- Who gets a message.
use lac.Base.{
  String, ◌==◌, Bool, true, false, not, Option, none, some, List, [], ◌∷◌, ◌≡◌, refl, ap, arith,
  exists, select, exists-map, exists-select-apart, if◌then◌else◌, Bool-cases, inl, inr,
}
use lac.Base.Result.{
  Tx, Result, ok, err, Error, run_tx, not_found, invalid_argument, return, ◌>>◌, require,
}
use lac.Base.Ensures.{bind_cases, Reads, Reads-require, reads_rules}
use lac.Core.Agent.{Agent}
use lac.Core.Time.{Time}
use lac.Core.Name.{validate_name}
use lac.Core.Audit.{AuditEntry}
use lac.Core.Message.{Message, broadcast_topic}
use lac.Store.{Db}
use lac.Store.Messages
use lac.Store.Messages.{outstanding, is_empty, is_delivery, deliver, row_of}
use lac.Store.Agents
use lac.Store.AuditLog
use lac.Store.Transaction.{commit, in_transaction}
use lac.Messaging.Post.{
  Service, SendRequest, Sent, send, send_tx, message_for, run, and_then, announce, addressed,
  recipient_named, entry_of, resolve_recipients, everyone_live, listeners, everyone_but,
  without_sender,
}

announced :
    (r : Result (Message × List String)) (s t : Service) (sent : Sent)
    → and_then (r, s) announce ≡ (ok sent, t)
    → (r ≡ ok (sent.message, sent.recipient_ids)) × (t ≡ s)
unfolding announce
announced (ok (m, rs)) s t sent h = (ground arith, ground arith)
announced (err e) s t sent h = absurd (ground arith)

ran :
    {A : Type 0} (m : Tx Db A) (s : Service) (a : A)
    → (run m s).0 ≡ ok a
    → m s.db ≡ ok (a, (run m s).1.db)
unfolding run in_transaction run_tx
ran {A} m s a = go (m s.db)
  where
    go : (r : Result (A × Db)) → (commit r s.db).0 ≡ ok a → r ≡ ok (a, (commit r s.db).1)
    go (ok (b, db)) h = ground arith
    go (err e) h = absurd (ground arith)

-- A message that was sent went through the transaction.
pub sent_lem :
    (json_valid : String → Bool) (detail : Message → List String → String) (request : SendRequest)
    (message_id : String) (now : Time) (s t : Service) (sent : Sent)
    → send json_valid detail request message_id now s ≡ (ok sent, t)
    → send_tx detail request (message_for s.default_time_to_live request message_id now) s.db
      ≡ ok ((sent.message, sent.recipient_ids), t.db)
unfolding send
sent_lem json_valid detail request message_id now s t sent =
    go (validate_name request.kind) (request.body == "") (json_valid request.body)
  where
    tx : Tx Db (Message × List String)
    tx = send_tx detail request (message_for s.default_time_to_live request message_id now)

    go :
        (o : Option Error) (b c : Bool)
        → elim o as (λ _. Result Sent × Service) [
          | some e ↦ (err e, s)
          | none ↦
              if b
              then (err invalid_argument, s)
              else if not c
              then (err invalid_argument, s)
              else and_then (run tx s) announce
        ]
          ≡ (ok sent, t)
        → tx s.db ≡ ok ((sent.message, sent.recipient_ids), t.db)
    go (some e) b c h = absurd (ground arith)
    go none true c h = absurd (ground arith)
    go none false false h = absurd (ground arith)
    go none false true h =
        let (r, k) = announced (run tx s).0 (run tx s).1 t sent h in
        rw k (ran tx s (sent.message, sent.recipient_ids) r)

logged_lem :
    (entry : AuditEntry) (a b : Message × List String) (s t : Db)
    → (AuditLog.append entry >> return a) s ≡ ok (b, t)
    → (t.messages ≡ s.messages) × (t.deliveries ≡ s.deliveries) × (a ≡ b)
unfolding run_tx AuditLog.append
logged_lem entry a b s t h = (ground arith, ground arith, ground arith)

pub Reads-resolve_recipients :
    (request : SendRequest) (sender : String) → Reads (resolve_recipients request sender)
unfolding resolve_recipients recipient_named everyone_live listeners Agents.list
    Messages.subscribers Agents.find_for_delivery
Reads-resolve_recipients request sender = elim (Bool-cases (request.to_agent_name == "")) [
  | inl e ↦ elim (Bool-cases (request.topic == broadcast_topic)) [
    | inl k ↦ rw (e, k) (search reads_rules)
    | inr k ↦ rw (e, k) (search reads_rules)
  ]
  | inr e ↦ rw e (search reads_rules)
]

without_lem :
    (sender : String) (xs : List String)
    → exists (λ r. r == sender) (without_sender xs sender) ≡ false
unfolding without_sender
without_lem sender xs = exists-select-apart (λ r. r == sender) _ xs λ r h. ground arith

everyone_lem :
    (sender : String) (xs : List Agent) → exists (λ r. r == sender) (everyone_but xs sender) ≡ false
unfolding everyone_but
everyone_lem sender xs =
    rw (exists-map (λ r. r == sender) (λ (a : Agent). a.id) (select (λ a. not (a.id == sender)) xs))
      (exists-select-apart (λ (a : Agent). a.id == sender) _ xs λ a h. ground arith)

everyone_live_lem :
    (sender : String) (recipients : List String) (s t : Db)
    → everyone_live sender s ≡ ok (recipients, t)
    → exists (λ r. r == sender) recipients ≡ false
unfolding everyone_live
everyone_live_lem sender recipients s t h =
    let (agents, s1, asked, last) = bind_cases (Agents.list _) _ s t recipients h in
    let same : everyone_but agents sender ≡ recipients = unfold return in ground arith in
    rw (← same) (everyone_lem sender agents)

listeners_lem :
    (topic sender : String) (recipients : List String) (s t : Db)
    → listeners topic sender s ≡ ok (recipients, t)
    → exists (λ r. r == sender) recipients ≡ false
unfolding listeners
listeners_lem topic sender recipients s t h =
    let (ids, s1, asked, last) = bind_cases (Messages.subscribers topic) _ s t recipients h in
    let same : without_sender ids sender ≡ recipients = unfold return in ground arith in
    rw (← same) (without_lem sender ids)

resolved_lem :
    (request : SendRequest) (sender : String) (recipients : List String) (s t : Db)
    → (request.to_agent_name == "") ≡ true
    → resolve_recipients request sender s ≡ ok (recipients, t)
    → exists (λ r. r == sender) recipients ≡ false
unfolding resolve_recipients
resolved_lem request sender recipients s t named h =
    elim (Bool-cases (request.topic == broadcast_topic)) [
      | inl e ↦ everyone_live_lem sender recipients s t (rw (named, e) at h)
      | inr e ↦ listeners_lem request.topic sender recipients s t (rw (named, e) at h)
    ]

addressed_id :
    (request : SendRequest) (recipients : List String) (message : Message)
    → (addressed request recipients message).id ≡ message.id
unfolding addressed
addressed_id request [] message = refl
addressed_id request (r ∷ rs) message = ground arith

abbrev after_resolving :
    (Message → List String → String)
    → SendRequest
    → Message
    → List String
    → Tx Db (Message × List String)
after_resolving detail request message rs = do
  require (not (is_empty rs)) not_found
  Messages.append (addressed request rs message) rs
  AuditLog.append (entry_of detail (addressed request rs message) rs)
  return (addressed request rs message, rs)

-- What a successful transaction of `Send` did.
pub send_tx_lem :
    (detail : Message → List String → String) (request : SendRequest) (message sent : Message)
    (recipients : List String) (s t : Db)
    → send_tx detail request message s ≡ ok ((sent, recipients), t)
    → (u : Db) × (resolve_recipients request message.from_agent_id s ≡ ok (recipients, s))
      × (sent.id ≡ message.id)
      × (Messages.append sent recipients s ≡ ok (tt, u))
      × (t.messages ≡ u.messages)
      × (t.deliveries ≡ u.deliveries)
unfolding send_tx
send_tx_lem detail request message sent recipients s t h =
    let (rs, s1, asked, h1) =
      bind_cases (resolve_recipients request message.from_agent_id) _ s t _ h in
    let here : s1 ≡ s =
      (Reads-resolve_recipients request message.from_agent_id).same s s1 rs asked in
    go rs s1 asked here h1
  where
    go :
        (rs : List String) (s1 : Db)
        → resolve_recipients request message.from_agent_id s ≡ ok (rs, s1)
        → s1 ≡ s
        → after_resolving detail request message rs s1 ≡ ok ((sent, recipients), t)
        → (u : Db) × (resolve_recipients request message.from_agent_id s ≡ ok (recipients, s))
          × (sent.id ≡ message.id)
          × (Messages.append sent recipients s ≡ ok (tt, u))
          × (t.messages ≡ u.messages)
          × (t.deliveries ≡ u.deliveries)
    go rs s1 asked here h1 =
        let (_, s2, someone, h2) = bind_cases (require _ not_found) _ s1 t _ h1 in
        let (_, s3, stored, h3) = bind_cases (Messages.append _ rs) _ s2 t _ h2 in
        let still : s2 ≡ s1 = (Reads-require _ not_found).same s1 s2 _ someone in
        let (kept, more, last) = logged_lem _ _ _ s3 t h3 in
        let who : addressed request rs message ≡ sent =
          ap (λ (p : Message × List String). p.0) last in
        let whom : rs ≡ recipients = ap (λ (p : Message × List String). p.1) last in
        (
          s3,
          rw (here, whom) at asked,
          rw (← who) (addressed_id request rs message),
          rw (still, here, who, whom) at stored,
          kept,
          more,
        )

-- A sender does not hear what it says to a topic, also when it is subscribed, and it is no recipient
-- of what it says to all.
pub topic_skips_its_sender :
    (json_valid : String → Bool) (detail : Message → List String → String) (request : SendRequest)
    (message_id : String) (now : Time) (s t : Service) (sent : Sent)
    → (request.to_agent_name == "") ≡ true
    → send json_valid detail request message_id now s ≡ (ok sent, t)
    → exists (λ r. r == request.from_agent_id) sent.recipient_ids ≡ false
topic_skips_its_sender json_valid detail request message_id now s t sent named h =
    let (_, asked, _, _, _, _) =
      send_tx_lem detail request _ sent.message sent.recipient_ids s.db t.db
        (sent_lem json_valid detail request message_id now s t sent h) in
    unfold message_for in
    resolved_lem request request.from_agent_id sent.recipient_ids s.db s.db named asked

-- A message that was not sent left nothing behind.
pub unsent_lem :
    (json_valid : String → Bool) (detail : Message → List String → String) (request : SendRequest)
    (message_id : String) (now : Time) (s t : Service) (e : Error)
    → send json_valid detail request message_id now s ≡ (err e, t)
    → t.db ≡ s.db
unfolding send run in_transaction run_tx announce
unsent_lem json_valid detail request message_id now s t e =
    go (validate_name request.kind) (request.body == "") (json_valid request.body)
      (send_tx detail request (message_for s.default_time_to_live request message_id now) s.db)
  where
    go :
        (o : Option Error) (b c : Bool) (r : Result ((Message × List String) × Db))
        → elim o as (λ _. Result Sent × Service) [
          | some e' ↦ (err e', s)
          | none ↦
              if b
              then (err invalid_argument, s)
              else if not c
              then (err invalid_argument, s)
              else and_then ((commit r s.db).0, record s { db = (commit r s.db).1 }) announce
        ]
          ≡ (err e, t)
        → t.db ≡ s.db
    go (some e') b c r h = ground arith
    go none true c r h = ground arith
    go none false false r h = ground arith
    go none false true (ok (p, db)) h = absurd (ground arith)
    go none false true (err e') h = ground arith
