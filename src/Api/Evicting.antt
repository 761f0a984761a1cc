-- ===== src/Api/Evicting.antt =====
-- internal/api/admin.go: an agent that was evicted is shut out.
use lac.Base.{
  ℕ, String, ◌^^◌, ◌==◌, false, List, ◌≡◌, ◌≢◌, refl, sym, update_where, ◌∙◌, ap, arith, exists,
  Bool-cases, inl, inr,
}
use lac.Base.Result.{Result, ok, err, run_tx}
use lac.Core.Time.{Time}
use lac.Core.Agent.{Agent, deregistered}
use lac.Core.Audit.{AuditEntry, AuditAction, agent_deregistered}
use lac.Store.{Db}
use lac.Store.AuditLog
use lac.Store.Agents
use lac.Store.Credentials
use lac.Store.Credentials.{valid_of, revoked_row}
use lac.Store.Transaction.{in_transaction, commit}
use lac.Registry.State.{Service, run, audit, and_then}
use lac.Registry.Roster.{retire, evict}
use lac.Auth.Token.{hash_token}
use lac.Auth.Authenticator.{Authenticator, authenticate}
use lac.Auth.Safety.{opens, closed_lem, authenticate-IsLetIn, IsLetIn}
use lac.Api.State.{Api, and_then as then_do, on_registry}
use lac.Api.Admin.{evict_target, retire_agent}

-- The authenticator of the daemon.
abbrev pub doors : Api → Authenticator
doors a = record { crypto = a.crypto; secret = a.secret; db = a.db }

-- Nothing lets in as the agent.
Closed : String → Db → Type 0
Closed agent_id db = (hash : List ℕ) → exists (opens hash agent_id) db.credentials ≡ false

logged_credentials :
    (e : AuditEntry) (db : Db)
    → (in_transaction (AuditLog.append e) db).1.credentials ≡ db.credentials
unfolding in_transaction commit AuditLog.append run_tx
logged_credentials e db = elim (Bool-cases (e.actor == "")) [
  | inl nobody ↦ rw nobody refl
  | inr somebody ↦ rw somebody refl
]

audited_credentials :
    (actor : String) (action : AuditAction) (target detail : String) (now : Time) (s : Service)
    → (audit actor action target detail now s).db.credentials ≡ s.db.credentials
unfolding audit run
audited_credentials actor action target detail now s = logged_credentials _ s.db

abbrev revoke_in : String → Time → Service → Result (Unit {0}) × Service
unfolding run Credentials.revoke
revoke_in agent_id at = run (Credentials.revoke agent_id at)

-- After the first statement of `retire`.
retired_lem :
    (actor agent_id detail : String) (now : Time) (r : Result (Unit {0}) × Service) (t : Service)
    → and_then r (λ _ s1.
      and_then
        (revoke_in agent_id now s1)
        (λ _ s2. (ok tt, audit actor agent_deregistered agent_id detail now s2)))
      ≡ (ok tt, t)
    → Closed agent_id t.db
unfolding Closed run in_transaction commit Credentials.revoke run_tx
retired_lem actor agent_id detail now (err e, s) t h = absurd (ground arith)
retired_lem actor agent_id detail now (ok u, s) t h =
    let revoked = record s {
      db = record s.db {
        credentials = update_where (valid_of agent_id) (revoked_row now) s.db.credentials;
      };
    } in
    let same : t.db.credentials
        ≡ update_where (valid_of agent_id) (revoked_row now) s.db.credentials =
      sym (ap (λ (p : Result (Unit {0}) × Service). p.1.db.credentials) h)
      ∙ audited_credentials actor agent_deregistered agent_id detail now revoked in
    λ hash. rw same (closed_lem hash agent_id now s.db.credentials)

retire_agent_lem :
    (actor agent_id : String) (now : Time) (a b : Api)
    → retire_agent actor agent_id now a ≡ (ok tt, b)
    → Closed agent_id b.db
unfolding retire_agent on_registry evict retire Closed revoke_in run
retire_agent_lem actor agent_id now a b h =
    let r = evict revoke_in actor agent_id now (record a.registry { db = a.db }) in
    let done : r.0 ≡ ok tt = ap (λ (p : Result (Unit {0}) × Api). p.0) h in
    let same : r.1.db ≡ b.db = ap (λ (p : Result (Unit {0}) × Api). p.1.db) h in
    rw (← same) (
      retired_lem actor agent_id ("evicted by " ^^ actor) now
        (run (Agents.set_state agent_id deregistered now) (record a.registry { db = a.db })) r.1
        (ap (λ (x : Result (Unit {0})). (x, r.1)) done))

-- The end of `handleEvict`.
evicted_lem :
    (actor agent_id : String) (now : Time) (n : ℕ) (r : Result ℕ × Api) (b : Api)
    → (then_do r
        λ released a1. then_do (retire_agent actor agent_id now a1) λ _ a2. (ok released, a2))
      ≡ (ok n, b)
    → Closed agent_id b.db
evicted_lem actor agent_id now n (err e, a) b h = absurd (ground arith)
evicted_lem actor agent_id now n (ok released, a) b h =
    go (retire_agent actor agent_id now a) refl h
  where
    go :
        (r : Result (Unit {0}) × Api)
        → retire_agent actor agent_id now a ≡ r
        → (then_do r λ _ a2. (ok released, a2)) ≡ (ok n, b)
        → Closed agent_id b.db
    go (err e, a2) ran k = absurd (ground arith)
    go (ok u, a2) ran k =
        let same : a2 ≡ b = ap (λ (p : Result ℕ × Api). p.1) k in
        rw (← same) (retire_agent_lem actor agent_id now a a2 ran)

evict_target_lem :
    (caller target : Agent) (now : Time) (n : ℕ) (a b : Api)
    → evict_target caller now target a ≡ (ok n, b)
    → Closed target.id b.db
unfolding evict_target
evict_target_lem caller target now n a b h = elim (Bool-cases target.internal) [
  | inl own ↦ absurd (let k = rw own at h in ground arith)
  | inr other ↦ evicted_lem caller.id target.id now n _ b (rw other at h)
]

-- Once an operator evicted an agent, no token at all is let in as that agent.
pub evicted_agent_is_shut_out :
    (caller target agent : Agent) (token : String) (now later : Time) (n : ℕ) (a b : Api)
    (d : Authenticator)
    → evict_target caller now target a ≡ (ok n, b)
    → authenticate token later (doors b) ≡ (ok agent, d)
    → agent.id ≢ target.id
unfolding IsLetIn Closed
evicted_agent_is_shut_out caller target agent token now later n a b d evicted let_in same =
    let (_, opened, _) = authenticate-IsLetIn token later (doors b) d agent let_in in
    let closed =
      evict_target_lem caller target now n a b evicted (hash_token b.crypto b.secret token) in
    let still = rw same at opened in ground (arith, closed, still)
