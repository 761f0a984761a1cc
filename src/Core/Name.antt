-- ===== src/Core/Name.antt =====
-- internal/core/agent.go: `nameSyntax` and `ValidateName`, over the characters of a name.
use Prim.Native.Char.{code}
use lac.Base.{
  ℕ, zero, suc, String, Bool, true, false, ◌&&◌, ◌||◌, Option, none, some, List, [], ◌∷◌, leb,
  if◌then◌else◌,
}
use lac.Base.Result.{Error, invalid_argument}

abbrev pub codes : String → List ℕ
codes String.[] = []
codes (String.◌∷◌ c s) = code c ∷ codes s

-- `[a-z0-9]`.
unfoldable pub name_start : ℕ → Bool
name_start c = (leb b'a' c && leb c b'z') || (leb b'0' c && leb c b'9')

-- `[a-z0-9._-]`.
unfoldable pub name_char : ℕ → Bool
unfolding name_start
name_char c =
    name_start c
    || (leb b'.' c && leb c b'.')
    || (leb b'_' c && leb c b'_')
    || (leb b'-' c && leb c b'-')

-- `[a-z0-9._-]{0,n}$`.
unfoldable pub name_rest : ℕ → List ℕ → Bool
unfolding name_char
name_rest n [] = true
name_rest zero (c ∷ cs) = false
name_rest (suc n) (c ∷ cs) = name_char c && name_rest n cs

-- `^[a-z0-9][a-z0-9._-]{0,62}$`.
unfoldable pub matches_name : List ℕ → Bool
unfolding name_start name_rest
matches_name [] = false
matches_name (c ∷ cs) = name_start c && name_rest 62 cs

unfoldable pub validate_name : String → Option Error
unfolding matches_name
validate_name name = if matches_name (codes name) then none else some invalid_argument
