-- ===== src/Github/Reference.antt =====
-- internal/github/pullrequest.go: `ParseReference`. Its error says how to write a reference, here it
-- is `none`.
pub mod RoundTrip
use lac.Base.{
  ℕ, suc, String, ◌^^◌, ◌==◌, Bool, true, false, not, ◌&&◌, ◌||◌, Option, none, some, List, [], ◌∷◌,
  if◌then◌else◌, ℤ, pos, negsuc, le_ℤ,
}
use lac.Strings.{trim_space, cut, replace_all, is_code}
use lac.Strings.Numbers.{atoi}
use Prim.Native.Char.{code}

-- `TrimSuffix` of a slash.
unfoldable pub trim_slash : String → String
trim_slash String.[] = ""
trim_slash (String.◌∷◌ c String.[]) = if is_code (code c) b'/' then "" else String.◌∷◌ c ""
trim_slash (String.◌∷◌ c (String.◌∷◌ d s)) = String.◌∷◌ c (trim_slash (String.◌∷◌ d s))

-- What stands before the first slash or question mark.
unfoldable pub until_slash : String → String
until_slash String.[] = ""
until_slash (String.◌∷◌ c s) =
    let rest = until_slash s in
    if is_code (code c) b'/' || is_code (code c) b'?' then "" else String.◌∷◌ c rest

-- Behind the number of a URL, what follows is cut off.
unfoldable pub cut_tail : String → String
unfolding cut until_slash
cut_tail value = elim (cut "#" value) [
  | none ↦ value
  | some (before, after) ↦ before ^^ "#" ^^ until_slash after
]

-- The rest of a pasted URL, as a reference.
unfoldable pub from_url : String → String
unfolding trim_slash cut_tail
from_url rest = cut_tail (trim_slash (replace_all rest "/pull/" "#"))

unfoldable pub normalised : String → String
unfolding from_url cut
normalised value = elim (cut "github.com/" value) [
  | none ↦ value
  | some (before, after) ↦ from_url after
]

-- A number that is positive.
abbrev pub positive_number : Option ℤ → Option ℤ
positive_number none = none
positive_number (some n) = if le_ℤ n (pos 0) then none else some n

abbrev pub named : String → String → Option ℤ → Option (String × String × ℤ)
named owner repository none = none
named owner repository (some n) =
    if owner == "" || repository == "" then none else some (owner, repository, n)

abbrev pub split_owner : Option (String × String) → String → Option (String × String × ℤ)
split_owner none digits = none
split_owner (some (owner, repository)) digits =
    named owner repository (positive_number (atoi digits))

abbrev pub split_number : Option (String × String) → Option (String × String × ℤ)
split_number none = none
split_number (some (path, digits)) = split_owner (cut "/" path) digits

-- `ParseReference`.
unfoldable pub parse_reference : String → Option (String × String × ℤ)
parse_reference text = split_number (cut "#" (normalised (trim_space text)))
