-- ===== src/Auth/Authenticator.antt =====
-- internal/auth/auth.go: issuing, checking and revoking tokens, and permissions.
use lac.Base.{ℕ, String, ◌==◌, ◌^^◌, Bool, false, not, none, List, if◌then◌else◌}
use lac.Base.Result.{Tx, Result, ok, err, not_found, unauthorised}
use lac.Core.Time.{Time}
use lac.Core.Agent.{Agent, is_deregistered, may_lease}
use lac.Core.Audit.{auth_denied, system_actor}
use lac.Core.Credential.{Credential, revoked}
use lac.Store.{Db}
use lac.Store.Agents
use lac.Store.AuditLog
use lac.Store.Credentials
use lac.Store.Credentials.{same_bytes}
use lac.Store.Transaction.{in_transaction}
use lac.Auth.Token.{Crypto, new_token, hash_token, looks_like_token, redact}

-- `Permission`; `unknown` is any other text.
pub data Permission : Type 0 where
  lease broadcast define_resource request_reports read_log force_release evict : Permission
  unknown : String → Permission

pub record Authenticator : Type 0 where
  pub crypto : Crypto
  pub secret : List ℕ
  pub db : Db

abbrev pub Action : Type 0 → Type 0
Action A = Authenticator → Result A × Authenticator

-- One statement of the store.
unfoldable pub run : {A : Type 0} → Tx Db A → Action A
unfolding in_transaction
run fn a = let (r, db') = in_transaction fn a.db in (r, record a { db = db' })

abbrev handed : String → Result (Unit {0}) × Authenticator → Result String × Authenticator
handed token (ok u, a) = (ok token, a)
handed token (err e, a) = (err e, a)

-- `Issue`, of the random bytes.
unfoldable pub issue : String → List ℕ → Time → Action String
unfolding run new_token hash_token
issue agent_id raw now a =
    let token = new_token a.crypto raw in
    handed token (
      run
        (Credentials.store (record {
          agent_id = agent_id;
          token_hash = hash_token a.crypto a.secret token;
          issued_at = now;
          revoked_at = none;
        }))
        a)

-- `audit`: that the entry cannot be written is only logged.
unfoldable pub audit : String → String → String → Time → Authenticator → Authenticator
unfolding run
audit actor target detail now a =
    (run
      (AuditLog.append (record {
        actor = if actor == "" then system_actor else actor;
        action = auth_denied;
        target = target;
        detail = detail;
        at = now;
      }))
      a).1

-- A refusal: the reason is in the audit log, and the answer is always the same.
abbrev pub refuse : {A : Type 0} → String → String → String → Time → Action A
unfolding audit
refuse actor target detail now a = (err unauthorised, audit actor target detail now a)

-- The end of `Authenticate`, with the agent of the credential.
unfoldable pub check_agent :
    String → Time → Result Agent × Authenticator → Result Agent × Authenticator
unfolding audit
check_agent agent_id now (err not_found, a) =
    refuse agent_id agent_id "the agent no longer exists" now a
check_agent agent_id now (err e, a) = (err e, a)
check_agent agent_id now (ok agent, a) =
    if is_deregistered agent.state
    then refuse agent.id agent.id "the agent has deregistered" now a
    else (ok agent, a)

-- The middle of `Authenticate`, with the credential of the hash.
unfoldable pub check_credential :
    String → Time → Result Credential × Authenticator → Result Agent × Authenticator
unfolding audit check_agent run same_bytes revoked hash_token redact
check_credential token now (err not_found, a) =
    refuse system_actor (redact token) "no credential matches the token" now a
check_credential token now (err e, a) = (err e, a)
check_credential token now (ok c, a) =
    if not (same_bytes c.token_hash (hash_token a.crypto a.secret token))
    then refuse system_actor c.agent_id "the token hash did not match" now a
    else if revoked c
    then refuse c.agent_id c.agent_id "the credential has been revoked" now a
    else check_agent c.agent_id now (run (Agents.by_id c.agent_id) a)

-- `Authenticate`.
unfoldable pub authenticate : String → Time → Action Agent
unfolding audit check_credential run hash_token looks_like_token
authenticate token now a =
    if not (looks_like_token a.crypto token)
    then refuse system_actor "" "the token is malformed" now a
    else check_credential token now
        (run (Credentials.by_token_hash (hash_token a.crypto a.secret token)) a)

-- `Revoke`.
unfoldable pub revoke : String → Time → Action (Unit {0})
unfolding run
revoke agent_id now = run (Credentials.revoke agent_id now)

-- `permitted`.
unfoldable pub permitted : Agent → Permission → String → Bool
permitted agent lease target = may_lease agent.capabilities target
permitted agent broadcast target = agent.capabilities.can_broadcast
permitted agent define_resource target = agent.capabilities.can_define_resources
permitted agent force_release target = agent.capabilities.can_define_resources
permitted agent evict target = agent.capabilities.can_define_resources
permitted agent request_reports target = agent.capabilities.can_request_reports
permitted agent read_log target = agent.capabilities.can_read_log
permitted agent (unknown p) target = false

abbrev pub permission_text : Permission → String
permission_text lease = "lease"
permission_text broadcast = "broadcast"
permission_text define_resource = "define_resource"
permission_text request_reports = "request_reports"
permission_text read_log = "read_the_message_log"
permission_text force_release = "force_release"
permission_text evict = "evict"
permission_text (unknown p) = p

-- `Authorise`.
unfoldable pub authorise : Agent → Permission → String → Time → Action (Unit {0})
unfolding audit permitted
authorise agent permission target now a =
    if permitted agent permission target
    then (ok tt, a)
    else refuse agent.id target (permission_text permission ^^ " is not permitted") now a
