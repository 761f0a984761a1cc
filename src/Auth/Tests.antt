-- ===== src/Auth/Tests.antt =====
-- Tokens at a small example, where the hash of a token is its text's length and its bytes are written
-- as a list of ones.
use lac.Base.{ℕ, String, some, none, [], ◌∷◌, ◌≢◌, refl, find, update_where}
use lac.Base.Result.{run_tx}
use lac.Store.Agents.{scan_agent}
use lac.Leasing.Example.{idle_db, agent_row}
use lac.Store.{CredentialRow}
use lac.Strings.{byte_length, strip_prefix}
use lac.Core.Credential.{revoked}
use lac.Store.Agents
use lac.Store.Credentials
use lac.Store.Credentials.{same_bytes, scan_credential, valid_of, revoked_row}
use lac.Store.Transaction.{in_transaction, commit}
use lac.Auth.Token.{Crypto, looks_like_token, hash_token}
use lac.Auth.Authenticator.{Authenticator, authenticate, revoke, check_credential, check_agent, run}
use lac.Auth.Safety.{revoked_agent_is_refused}

-- A hash of one byte, and every text of 32 bytes decoded alike.
abbrev pub crypto : Crypto
crypto = record {
  mac = λ secret token. byte_length token ∷ [];
  encode = λ raw. "raw";
  decode = λ text. some (
      0 ∷ 0 ∷ 0 ∷ 0 ∷ 0 ∷ 0 ∷ 0 ∷ 0 ∷ 0 ∷ 0 ∷ 0 ∷ 0 ∷ 0 ∷ 0 ∷ 0 ∷ 0 ∷ 0 ∷ 0 ∷ 0 ∷ 0 ∷ 0 ∷ 0 ∷ 0 ∷ 0
      ∷ 0 ∷ 0 ∷ 0 ∷ 0 ∷ 0 ∷ 0 ∷ 0 ∷ 0 ∷ []);
}

abbrev pub credential : String → ℕ → CredentialRow
credential agent hash = record {
  agent_id = agent;
  token_hash = hash ∷ [];
  issued_at = 0;
  revoked_at = none;
}

abbrev doors : Authenticator
doors = record {
  crypto = crypto;
  secret = [];
  db = record idle_db { credentials = credential "alice" 7 ∷ credential "bob" 8 ∷ [] };
}

-- Bob's token still lets him in after alice's is revoked.
revoked_agent_is_refused_example : (scan_agent (agent_row "bob")).id ≢ "alice"
revoked_agent_is_refused_example =
    revoked_agent_is_refused "alice" "lac_four" 5 6 doors (revoke "alice" 5 doors).1
      (scan_agent (agent_row "bob"))
      (unfold authenticate looks_like_token hash_token check_credential check_agent run
          in_transaction commit run_tx Credentials.by_token_hash Agents.by_id same_bytes
          scan_credential scan_agent revoked revoke Credentials.revoke valid_of revoked_row find
          update_where strip_prefix byte_length in
        refl)
