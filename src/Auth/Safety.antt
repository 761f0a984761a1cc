-- ===== src/Auth/Safety.antt =====
-- internal/auth: who is let in, and who is not after a revocation.
use lac.Base.{
  ℕ, String, ◌==◌, Bool, true, false, not, ◌&&◌, some, List, [], ◌∷◌, ◌≡◌, ◌≢◌, refl, arith, ◌⊎◌,
  inl, inr, exists, find, Bool-cases, Option-cases, eq_refl, eq_iff, exists-none,
  exists-update_where-ended, update_where,
}
use lac.Base.Result.{
  ok, err, Error, run_tx, not_found, already_exists, invalid_argument, unauthorised,
  capacity_reached, conflict, context_done,
}
use lac.Core.Time.{Time, from_micros}
use lac.Core.Agent.{Agent, is_deregistered}
use lac.Core.Credential.{revoked}
use lac.Store.{CredentialRow, AgentRow}
use lac.Store.Agents
use lac.Store.Agents.{scan_agent}
use lac.Store.Leases.{is_null}
use lac.Store.Messages.{is_empty}
use lac.Store.Credentials
use lac.Store.Credentials.{same_bytes, scan_credential, valid_of, revoked_row}
use lac.Store.Transaction.{in_transaction, commit}
use lac.Auth.Token.{hash_token, looks_like_token}
use lac.Auth.Authenticator.{Authenticator, run, authenticate, check_credential, check_agent, revoke}

-- The rows of the tables that let a token in.
abbrev pub opens : List ℕ → String → CredentialRow → Bool
opens hash agent_id c =
    c.agent_id == agent_id && is_null c.revoked_at && same_bytes c.token_hash hash

abbrev pub present : String → AgentRow → Bool
present agent_id r = r.id == agent_id && not (is_deregistered r.state)

-- What the lookups find.
credential_cases :
    (hash : List ℕ) (a : Authenticator)
    → ((row : CredentialRow) × (find
            (λ (c : CredentialRow). same_bytes c.token_hash hash)
            a.db.credentials
          ≡ some row)
        × (run (Credentials.by_token_hash hash) a ≡ (ok (scan_credential row), a)))
      ⊎ ((e : Error) × (run (Credentials.by_token_hash hash) a ≡ (err e, a)))
unfolding run in_transaction commit Credentials.by_token_hash run_tx
credential_cases hash a = elim (Bool-cases (is_empty hash)) [
  | inl e ↦ inr (invalid_argument, rw e refl)
  | inr e ↦
      elim (Option-cases
        (find (λ (c : CredentialRow). same_bytes c.token_hash hash) a.db.credentials)) [
          | inl missing ↦ inr (not_found, rw (e, missing) refl)
          | inr (row, found) ↦ inl (row, found, rw (e, found) refl)
        ]
]

agent_cases :
    (id : String) (a : Authenticator)
    → ((row : AgentRow) × (find (λ (r : AgentRow). r.id == id) a.db.agents ≡ some row)
        × (run (Agents.by_id id) a ≡ (ok (scan_agent row), a)))
      ⊎ (run (Agents.by_id id) a ≡ (err not_found, a))
unfolding run in_transaction commit Agents.by_id run_tx
agent_cases id a = elim (Option-cases (find (λ (r : AgentRow). r.id == id) a.db.agents)) [
  | inl missing ↦ inr (rw missing refl)
  | inr (row, found) ↦ inl (row, found, rw found refl)
]

find-present :
    (id : String) (rows : List AgentRow) (row : AgentRow)
    → find (λ (r : AgentRow). r.id == id) rows ≡ some row
    → is_deregistered row.state ≡ false
    → (row.id ≡ id) × (exists (present id) rows ≡ true)
unfolding find exists
find-present id [] row h live = absurd (ground arith)
find-present id (r ∷ rows) row h live = elim (Bool-cases (r.id == id)) [
  | inl e ↦ let same : r ≡ row = ground arith in (ground (arith, eq_iff r.id id), ground arith)
  | inr e ↦ ground (arith, find-present id rows row)
]

find-opens :
    (hash : List ℕ) (rows : List CredentialRow) (row : CredentialRow)
    → find (λ (c : CredentialRow). same_bytes c.token_hash hash) rows ≡ some row
    → is_null row.revoked_at ≡ true
    → exists (opens hash row.agent_id) rows ≡ true
unfolding find exists
find-opens hash [] row h live = absurd (ground arith)
find-opens hash (c ∷ rows) row h live =
    ground (arith, eq_refl row.agent_id, find-opens hash rows row)

agent_step :
    (id : String) (now : Time) (a b : Authenticator) (agent : Agent)
    → check_agent id now (run (Agents.by_id id) a) ≡ (ok agent, b)
    → (b ≡ a) × (agent.id ≡ id) × (exists (present id) a.db.agents ≡ true)
unfolding check_agent scan_agent
agent_step id now a b agent h = elim (agent_cases id a) [
  | inr missing ↦ absurd (let k = rw missing at h in ground arith)
  | inl (row, found, ran) ↦
      let k = rw ran at h in
      elim (Bool-cases (is_deregistered row.state)) [
        | inl gone ↦ absurd (let m = rw gone at k in ground arith)
        | inr live ↦
            let m = rw live at k in
            let (same, here) = find-present id a.db.agents row found live in
            (ground arith, ground arith, here)
      ]
]

valid-null :
    (row : CredentialRow) → revoked (scan_credential row) ≡ false → is_null row.revoked_at ≡ true
unfolding revoked scan_credential from_micros
valid-null row h = elim (Option-cases row.revoked_at) [
  | inl never ↦ rw never refl
  | inr (t, at) ↦ absurd (ground arith)
]

refused_lem :
    (token : String) (now : Time) (a b : Authenticator) (agent : Agent) (e : Error)
    → check_credential token now (err e, a) ≢ (ok agent, b)
unfolding check_credential
refused_lem token now a b agent not_found h = ground arith
refused_lem token now a b agent already_exists h = ground arith
refused_lem token now a b agent invalid_argument h = ground arith
refused_lem token now a b agent unauthorised h = ground arith
refused_lem token now a b agent capacity_reached h = ground arith
refused_lem token now a b agent conflict h = ground arith
refused_lem token now a b agent context_done h = ground arith

-- What is true when a token is let in.
unfoldable pub IsLetIn : String → Agent → Authenticator → Authenticator → Type 0
IsLetIn token agent a b =
    (b ≡ a)
    × (exists (opens (hash_token a.crypto a.secret token) agent.id) a.db.credentials ≡ true)
    × (exists (present agent.id) a.db.agents ≡ true)

matched_step :
    (token : String) (now : Time) (a b : Authenticator) (agent : Agent) (row : CredentialRow)
    → find
        (λ (c : CredentialRow). same_bytes c.token_hash (hash_token a.crypto a.secret token))
        a.db.credentials
      ≡ some row
    → check_credential token now (ok (scan_credential row), a) ≡ (ok agent, b)
    → IsLetIn token agent a b
unfolding check_credential IsLetIn
matched_step token now a b agent row found h =
    let hash = hash_token a.crypto a.secret token in
    elim (Bool-cases (same_bytes (scan_credential row).token_hash hash)) [
      | inr other ↦ absurd (let m = rw other at h in ground arith)
      | inl matches ↦ elim (Bool-cases (revoked (scan_credential row))) [
        | inl gone ↦ absurd (let m = rw (matches, gone) at h in ground arith)
        | inr valid ↦
            let m = rw (matches, valid) at h in
            let (same, whose, here) = agent_step (scan_credential row).agent_id now a b agent m in
            (
              same,
              rw whose
                  unfold scan_credential in
                    find-opens hash a.db.credentials row found (valid-null row valid),
              rw whose here,
            )
      ]
    ]

credential_step :
    (token : String) (now : Time) (a b : Authenticator) (agent : Agent)
    → check_credential token now
        (run (Credentials.by_token_hash (hash_token a.crypto a.secret token)) a)
      ≡ (ok agent, b)
    → IsLetIn token agent a b
credential_step token now a b agent h =
    elim (credential_cases (hash_token a.crypto a.secret token) a) [
      | inr (e, failed) ↦ absurd (refused_lem token now a b agent e (rw failed at h))
      | inl (row, found, ran) ↦ matched_step token now a b agent row found (rw ran at h)
    ]

-- A token that is let in has a credential that is not revoked, and it is that of an agent on the
-- roster that has not deregistered; being let in changes nothing.
pub authenticate-IsLetIn :
    (token : String) (now : Time) (a b : Authenticator) (agent : Agent)
    → authenticate token now a ≡ (ok agent, b)
    → IsLetIn token agent a b
unfolding authenticate
authenticate-IsLetIn token now a b agent h = elim (Bool-cases (looks_like_token a.crypto token)) [
  | inr malformed ↦ absurd (let m = rw malformed at h in ground arith)
  | inl shaped ↦ credential_step token now a b agent (rw shaped at h)
]

-- The update of `Revoke` closes what was open.
pub closed_lem :
    (hash : List ℕ) (agent_id : String) (at : Time) (rows : List CredentialRow)
    → exists (opens hash agent_id) (update_where (valid_of agent_id) (revoked_row at) rows) ≡ false
unfolding valid_of revoked_row
closed_lem hash agent_id at rows =
    exists-none (opens hash agent_id) (valid_of agent_id) _ (λ c h. ground arith)
      (exists-update_where-ended (valid_of agent_id) (revoked_row at) rows (λ c. ground arith))

revoked_lem :
    (hash : List ℕ) (agent_id : String) (at : Time) (a : Authenticator)
    → exists (opens hash agent_id) (revoke agent_id at a).1.db.credentials ≡ false
unfolding revoke run in_transaction commit Credentials.revoke run_tx
revoked_lem hash agent_id at a = closed_lem hash agent_id at a.db.credentials

-- Once the token of an agent is revoked, no token at all is let in as that agent.
pub revoked_agent_is_refused :
    (agent_id token : String) (at now : Time) (a b : Authenticator) (agent : Agent)
    → authenticate token now (revoke agent_id at a).1 ≡ (ok agent, b)
    → agent.id ≢ agent_id
unfolding IsLetIn
revoked_agent_is_refused agent_id token at now a b agent h same =
    let (_, opened, _) = authenticate-IsLetIn token now (revoke agent_id at a).1 b agent h in
    let after = (revoke agent_id at a).1 in
    let closed = revoked_lem (hash_token after.crypto after.secret token) agent_id at a in
    let still = rw same at opened in ground (arith, closed, still)
