-- ===== src/Auth/Token.antt =====
-- internal/auth/token.go and secret.go: tokens and their hashes. HMAC and base64 are Go's libraries
-- and arguments.
use lac.Base.{
  ℕ, ◌+◌, String, ◌^^◌, Bool, false, ◌&&◌, Option, none, some, List, leb, length, if◌then◌else◌,
}
use lac.Strings.{strip_prefix, byte_length, first_bytes}

-- The keyed hash of a text, and the encoding of bytes with its partial inverse.
pub record Crypto : Type 0 where
  pub mac : List ℕ → String → List ℕ
  pub encode : List ℕ → String
  pub decode : String → Option (List ℕ)

abbrev pub token_prefix : String
token_prefix = "lac_"

abbrev pub token_bytes : ℕ
token_bytes = 32

abbrev pub secret_size : ℕ
secret_size = 32

-- `newToken` of the random bytes.
unfoldable pub new_token : Crypto → List ℕ → String
new_token c raw = token_prefix ^^ c.encode raw

-- `hashToken`.
unfoldable pub hash_token : Crypto → List ℕ → String → List ℕ
hash_token c secret token = c.mac secret token

abbrev is_whole : Option (List ℕ) → Bool
is_whole none = false
is_whole (some bytes) = leb (length bytes) token_bytes && leb token_bytes (length bytes)

abbrev decodes : Crypto → Option String → Bool
decodes c none = false
decodes c (some rest) = is_whole (c.decode rest)

-- `looksLikeToken`.
unfoldable pub looks_like_token : Crypto → String → Bool
looks_like_token c token = decodes c (strip_prefix token_prefix token)

-- `Redact`.
unfoldable pub redact : String → String
redact token =
    if leb (byte_length token) (byte_length token_prefix + 6)
    then token_prefix ^^ "…"
    else first_bytes (byte_length token_prefix + 6) token ^^ "…"
