-- ===== src/Prwatch/Telling.antt =====
-- internal/service/prwatch/prwatch.go: what recording an event leaves alone.
use lac.Base.{
  if◌then◌else◌, not, ◌==◌, Option, none, some, true, false, String, Bool, List, [], ◌∷◌, ◌≡◌, refl,
  ◌∙◌,
}
use lac.Base.Result.{Tx, Result, ok, err, Error, run_tx}
use lac.Base.Ensures.{Ensures, IsPreorder, Ensures-exec, ensures_rules}
use lac.Core.Message.{Message}
use lac.Core.Audit.{AuditEntry}
use lac.Store.{Db, WatchRow}
use lac.Store.Agents
use lac.Store.AuditLog
use lac.Store.Messages
use lac.Store.Messages.{deliver}
use lac.Messaging.Post
use lac.Messaging.Post.{SendRequest, send_tx, send, and_then, announce, Sent}
use lac.Messaging.Sending.{Reads-resolve_recipients}
use lac.Core.Time.{Time}
use lac.Core.Agent.{Agent}
use lac.Core.Name.{validate_name}
use lac.Core.Watch.{Watch, WatchEvent}
use lac.Store.Transaction.{in_transaction, commit}
use lac.Store.Watches
use lac.Prwatch.State.{
  Outside, Service, run, tell, tell_all, notify, record_event, record_events, after_append, stamped,
}

-- The watches are what they were.
unfoldable pub SameWatches : Db → Db → Type 0
SameWatches a b = b.watches ≡ a.watches

SameWatches-preorder : IsPreorder SameWatches
unfolding SameWatches
SameWatches-preorder = record { rel_refl = λ s. refl; rel_trans = λ s t u a b. b ∙ a }

deliver-SameWatches : (m r : String) → Ensures SameWatches (deliver m r)
unfolding deliver SameWatches
deliver-SameWatches m r = Ensures-exec _ (λ s. refl)

append-SameWatches : (m : Message) (rs : List String) → Ensures SameWatches (Messages.append m rs)
unfolding Messages.append SameWatches
append-SameWatches m rs =
    search (ensures_rules, SameWatches-preorder, Ensures-exec, deliver-SameWatches) depth 30 fits
      20000

log-SameWatches : (e : AuditEntry) → Ensures SameWatches (AuditLog.append e)
unfolding AuditLog.append SameWatches
log-SameWatches e = search (ensures_rules, SameWatches-preorder, Ensures-exec) depth 30 fits 20000

send_tx-SameWatches :
    (detail : Message → List String → String) (request : SendRequest) (m : Message)
    → Ensures SameWatches (send_tx detail request m)
unfolding send_tx
send_tx-SameWatches detail request m =
    search
      (
        ensures_rules, SameWatches-preorder, append-SameWatches, log-SameWatches,
        Reads-resolve_recipients,
      )
      depth 30 fits 20000

append_event-SameWatches : (e : WatchEvent) → Ensures SameWatches (Watches.append_event e)
unfolding Watches.append_event SameWatches
append_event-SameWatches e =
    search (ensures_rules, SameWatches-preorder, Ensures-exec) depth 30 fits 20000

module _ {A : Type 0} where
  commit-SameWatches :
      (fn : Tx Db A) (db : Db) (r : Result (A × Db))
      → Ensures SameWatches fn
      → fn db ≡ r
      → SameWatches db (commit r db).1
  unfolding commit SameWatches
  commit-SameWatches fn db (ok (a, after)) keeps ran = keeps.at db after a ran
  commit-SameWatches fn db (err e) keeps ran = refl

  in_transaction-SameWatches :
      (fn : Tx Db A) (db : Db) → Ensures SameWatches fn → SameWatches db (in_transaction fn db).1
  unfolding in_transaction run_tx
  in_transaction-SameWatches fn db keeps = commit-SameWatches fn db (fn db) keeps refl

  run-SameWatches :
      (fn : Tx Db A) (s : Service)
      → Ensures SameWatches fn
      → SameWatches s.post.db (run fn s).1.post.db
  unfolding run
  run-SameWatches fn s keeps = in_transaction-SameWatches fn s.post.db keeps

announced-SameWatches :
    (r : Result (Message × List String) × Post.Service)
    → SameWatches r.1.db (and_then r announce).1.db
unfolding announce SameWatches
announced-SameWatches (ok sent, s) = refl
announced-SameWatches (err e, s) = refl

-- A choice of two ends that both leave the watches alone.
pub chosen :
    {A : Type 0} (watches : A → List WatchRow) (now : List WatchRow) (b : Bool) (x y : A)
    → watches x ≡ now
    → watches y ≡ now
    → watches (if b then x else y) ≡ now
chosen watches now true x y h k = h
chosen watches now false x y h k = k

abbrev watches_of : Result Sent × Post.Service → List WatchRow
watches_of r = r.1.db.watches

valid_or_not :
    (checked : Option Error) (s : Post.Service) (r : Result Sent × Post.Service)
    → watches_of r ≡ s.db.watches
    → watches_of (elim checked [ some e ↦ (err e, s) | none ↦ r ]) ≡ s.db.watches
valid_or_not none s r h = h
valid_or_not (some e) s r h = refl

send-SameWatches :
    (json_valid : String → Bool) (detail : Message → List String → String) (request : SendRequest)
    (id : String) (now : Time) (s : Post.Service)
    → SameWatches s.db (send json_valid detail request id now s).1.db
unfolding send Post.run SameWatches
send-SameWatches json_valid detail request id now s =
    let fn = send_tx detail request (Post.message_for s.default_time_to_live request id now) in
    valid_or_not (validate_name request.kind) s _ (
      chosen watches_of s.db.watches (request.body == "") _ _ refl (
        chosen watches_of s.db.watches (not (json_valid request.body)) _ _ refl (
          announced-SameWatches (Post.run fn s)
          ∙ in_transaction-SameWatches fn s.db (send_tx-SameWatches detail request _))))

tell-SameWatches :
    (o : Outside) (w : Watch) (e : WatchEvent) (subscriber : String) (r : Result Agent)
    (s : Service)
    → SameWatches s.post.db (tell o w e subscriber r s).post.db
unfolding SameWatches
tell-SameWatches o w e subscriber (err x) s = refl
tell-SameWatches o w e subscriber (ok agent) s =
    send-SameWatches o.json_valid o.detail _ (o.fresh_id s.drawn) o.now s.post

tell_all-SameWatches :
    (o : Outside) (w : Watch) (e : WatchEvent) (subscribers : List String) (s : Service)
    → SameWatches s.post.db (tell_all o w e subscribers s).post.db
unfolding tell_all SameWatches
tell_all-SameWatches o w e [] s = refl
tell_all-SameWatches o w e (subscriber ∷ rest) s =
    let told = tell o w e subscriber (run (Agents.by_id subscriber) s).0 s in
    tell_all-SameWatches o w e rest told
    ∙ tell-SameWatches o w e subscriber (run (Agents.by_id subscriber) s).0 s

notify-SameWatches :
    (o : Outside) (w : Watch) (e : WatchEvent) (s : Service)
    → SameWatches s.post.db (notify o w e s).post.db
unfolding notify SameWatches
notify-SameWatches o w e s =
    chosen (λ (t : Service). t.post.db.watches) s.post.db.watches s.has_messaging _ _
      (tell_all-SameWatches o w e (Watches.subscribers_of w.id s.post.db) s) refl

appended-SameWatches :
    (o : Outside) (w : Watch) (e : WatchEvent) (r : Result (Unit {0}) × Service)
    → SameWatches r.1.post.db (after_append o w e r).post.db
unfolding SameWatches
appended-SameWatches o w e (err x, s) = refl
appended-SameWatches o w e (ok u, s) = notify-SameWatches o w e s

pub record_event-SameWatches :
    (o : Outside) (w : Watch) (e : WatchEvent) (s : Service)
    → SameWatches s.post.db (record_event o w e s).post.db
unfolding record_event
record_event-SameWatches o w e s =
    let fn = Watches.append_event (stamped o w e) in
    SameWatches-preorder.rel_trans s.post.db (run fn s).1.post.db _
      (run-SameWatches fn s (append_event-SameWatches (stamped o w e)))
      (appended-SameWatches o w (stamped o w e) (run fn s))

pub record_events-SameWatches :
    (o : Outside) (w : Watch) (events : List WatchEvent) (s : Service)
    → SameWatches s.post.db (record_events o w events s).post.db
unfolding record_events SameWatches
record_events-SameWatches o w [] s = refl
record_events-SameWatches o w (e ∷ events) s =
    record_events-SameWatches o w events (record_event o w e s) ∙ record_event-SameWatches o w e s
