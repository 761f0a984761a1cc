-- ===== src/Store/Credentials.antt =====
-- internal/store/sqlite/credentials.go: the credential repository.
use lac.Base.{
  ℕ, String, ◌==◌, Bool, true, false, not, ◌&&◌, some, List, [], ◌∷◌, ◌++◌, find, exists,
  update_where, if◌then◌else◌, leb,
}
use lac.Base.Result.{
  Tx, ◌>>=◌, ◌>>◌, return, require, or_fail, query, exec, invalid_argument, not_found,
  already_exists,
}
use lac.Core.Time.{Time, require_micros, to_micros, from_required_micros, from_micros}
use lac.Core.Credential.{Credential}
use lac.Store.{Db, CredentialRow}
use lac.Store.Leases.{is_null}
use lac.Store.Messages.{is_empty}

-- The bytes of two hashes are the same.
unfoldable pub same_bytes : List ℕ → List ℕ → Bool
same_bytes [] [] = true
same_bytes [] (b ∷ bs) = false
same_bytes (a ∷ xs) [] = false
same_bytes (a ∷ xs) (b ∷ bs) = leb a b && leb b a && same_bytes xs bs

unfoldable pub scan_credential : CredentialRow → Credential
unfolding from_required_micros from_micros
scan_credential row = record {
  agent_id = row.agent_id;
  token_hash = row.token_hash;
  issued_at = from_required_micros row.issued_at;
  revoked_at = from_micros row.revoked_at;
}

unfoldable pub row_of : Credential → CredentialRow
unfolding require_micros to_micros
row_of c = record {
  agent_id = c.agent_id;
  token_hash = c.token_hash;
  issued_at = require_micros c.issued_at;
  revoked_at = to_micros c.revoked_at;
}

-- `ON CONFLICT (agent_id) DO UPDATE`.
unfoldable pub upsert : CredentialRow → List CredentialRow → List CredentialRow
upsert row rows =
    if exists (λ c. c.agent_id == row.agent_id) rows
    then update_where (λ c. c.agent_id == row.agent_id) (λ _. row) rows
    else rows ++ row ∷ []

-- `Store`. The last two `require` lines are the foreign key and the unique index of the hashes.
unfoldable pub store : Credential → Tx Db (Unit {0})
unfolding row_of upsert same_bytes
store credential = do
  require (not (credential.agent_id == "")) invalid_argument
  require (not (is_empty credential.token_hash)) invalid_argument
  known ← query (λ db. exists (λ a. a.id == credential.agent_id) db.agents)
  require known invalid_argument
  taken ← query (λ db.
      exists
        (λ c.
          not (c.agent_id == credential.agent_id) && same_bytes c.token_hash credential.token_hash)
        db.credentials)
  require (not taken) already_exists
  exec (λ db. record db { credentials = upsert (row_of credential) db.credentials })

-- `ByTokenHash`.
unfoldable pub by_token_hash : List ℕ → Tx Db Credential
unfolding scan_credential same_bytes
by_token_hash token_hash = do
  require (not (is_empty token_hash)) invalid_argument
  row ← query (λ db. find (λ c. same_bytes c.token_hash token_hash) db.credentials)
  found ← or_fail row not_found
  return (scan_credential found)

unfoldable pub valid_of : String → CredentialRow → Bool
valid_of agent_id c = c.agent_id == agent_id && is_null c.revoked_at

unfoldable pub revoked_row : Time → CredentialRow → CredentialRow
unfolding require_micros
revoked_row at c = record c { revoked_at = some (require_micros at) }

-- `Revoke`.
unfoldable pub revoke : String → Time → Tx Db (Unit {0})
unfolding valid_of revoked_row
revoke agent_id at = exec λ db. record db {
  credentials = update_where (valid_of agent_id) (revoked_row at) db.credentials;
}
