-- ===== src/Core/Credential.antt =====
-- internal/core/credential.go: an agent's authentication secret, as a keyed hash.
use lac.Base.{ℕ, String, Bool, true, false, Option, none, some, List}
use lac.Core.Time.{Time}

pub record Credential : Type 0 where
  pub agent_id : String
  pub token_hash : List ℕ
  pub issued_at : Time
  pub revoked_at : Option Time

abbrev is_set : Option Time → Bool
is_set none = false
is_set (some t) = true

-- `Revoked`.
unfoldable pub revoked : Credential → Bool
revoked c = is_set c.revoked_at
