-- ===== src/Github/Reference/RoundTrip.antt =====
-- A reference that is printed is read back.
use Prim.Native.Char.{Char, code}
use text.Mathlib.TextLemmas.{nil-append, cons-append, append_assoc}
use lac.Base.{
  ℕ, ◌≤◌, ◌<◌, String, ◌^^◌, Bool, true, false, not, ◌&&◌, ◌||◌, none, some, ◌≡◌, ◌≢◌, refl, ap,
  ◌∙◌, arith, pos, eq_iff, exists,
}
use lac.Strings.{is_space, is_code, strip_prefix, cut, trim_space}
use lac.Strings.Laws.{
  Every, Every-append, Every-map, no_space, no_char, is_found_code, trim_space_lem, cut_lem,
  cut-none,
}
use lac.Strings.Numbers.{itoa, atoi, atoi-itoa, is_digit, Every-digits, max_int}
use lac.Github.PullRequest.{reference}
use lac.Github.Reference.{parse_reference, normalised}

-- The characters of an owner's name: no white space, and none of `/`, `#` and `.`.
abbrev pub owner_char : ℕ → Bool
owner_char c = no_space c && not (is_code b'/' c) && not (is_code b'#' c) && not (is_code b'.' c)

-- Those of a repository's name, which may have dots.
abbrev pub repository_char : ℕ → Bool
repository_char c = no_space c && not (is_code b'/' c) && not (is_code b'#' c)

-- A dot stands in the text before any slash.
dotted : String → Bool
dotted String.[] = false
dotted (String.◌∷◌ a p) = is_code b'.' (code a) || (not (is_code b'/' (code a)) && dotted p)

abbrev slash : Char
slash = "/"

abbrev hash : Char
hash = "#"

-- No match of such a text begins in an owner's name.
strip_prefix-owner :
    (p owner rest : String)
    → Every owner_char owner
    → dotted p ≡ true
    → strip_prefix p (owner ^^ String.◌∷◌ slash rest) ≡ none
unfolding strip_prefix dotted
strip_prefix-owner String.[] owner rest h k = absurd (ground arith)
strip_prefix-owner (String.◌∷◌ a p) String.[] rest h k = rw nil-append (ground arith)
strip_prefix-owner (String.◌∷◌ a p) (String.◌∷◌ c owner) rest h k =
    rw cons-append (ground (arith, strip_prefix-owner p owner rest h.1))

cut-owner :
    (p owner rest : String)
    → Every owner_char owner
    → dotted p ≡ true
    → is_found_code b'/' p ≡ true
    → Every (no_char b'/') rest
    → cut p (owner ^^ String.◌∷◌ slash rest) ≡ none
unfolding cut
cut-owner p String.[] rest h k l r =
    let first : strip_prefix p (String.◌∷◌ slash rest) ≡ none =
      rw nil-append at (strip_prefix-owner p "" rest tt k) in
    rw (nil-append, first, cut-none b'/' p rest r l) refl
cut-owner p (String.◌∷◌ c owner) rest h k l r =
    let first = strip_prefix-owner p (String.◌∷◌ c owner) rest h k in
    rw (cons-append, rw cons-append at first, cut-owner p owner rest h.1 k l r) refl

-- An owner, a repository and a number, as a person writes them.
abbrev pub spelled : String → String → String → String
spelled owner repository number = owner ^^ String.◌∷◌ slash (repository ^^ String.◌∷◌ hash number)

abbrev plain : ℕ → Bool
plain c = no_space c && not (is_code b'/' c)

repository_char-plain : (s : String) → Every repository_char s → Every plain s
repository_char-plain s = Every-map repository_char plain s λ c h. ground arith

is_digit-plain : (s : String) → Every is_digit s → Every plain s
is_digit-plain s = Every-map is_digit plain s λ c h. unfold is_space exists in ground arith

rest-plain :
    (repository number : String)
    → Every repository_char repository
    → Every is_digit number
    → Every plain (repository ^^ String.◌∷◌ hash number)
rest-plain repository number r d =
    Every-append plain repository (String.◌∷◌ hash number) (repository_char-plain repository r)
      (unfold is_space exists in refl, is_digit-plain number d)

-- What is spelled has no white space around it, and is no URL.
normalised-spelled :
    (owner repository number : String)
    → Every owner_char owner
    → Every repository_char repository
    → Every is_digit number
    → normalised (trim_space (spelled owner repository number)) ≡ spelled owner repository number
unfolding normalised
normalised-spelled owner repository number o r d =
    let rest = rest-plain repository number r d in
    let all : Every no_space (spelled owner repository number) =
      Every-append no_space owner _ (Every-map owner_char no_space owner (λ c h. ground arith) o)
        (unfold is_space exists in refl, Every-map plain no_space _ (λ c h. ground arith) rest) in
    rw
      (
        trim_space_lem _ all,
        cut-owner "github.com/" owner _ o (unfold dotted in refl) refl
            (Every-map plain (no_char b'/') _ (λ c h. ground arith) rest),
        normalised,
      )
      (trim_space_lem _ all)

parsed :
    (owner repository number : String) (n : ℕ)
    → Every owner_char owner
    → Every repository_char repository
    → Every is_digit number
    → owner ≢ ""
    → repository ≢ ""
    → atoi number ≡ some (pos n)
    → 0 < n
    → parse_reference (spelled owner repository number) ≡ some (owner, repository, pos n)
unfolding parse_reference
parsed owner repository number n o r d no_owner no_repository read small =
    let split : spelled owner repository number
        ≡ (owner ^^ String.◌∷◌ slash repository) ^^ String.◌∷◌ hash number =
      rw (append_assoc, cons-append) refl in
    let at_hash : cut "#" (spelled owner repository number)
        ≡ some (owner ^^ String.◌∷◌ slash repository, number) =
      rw split (
        cut_lem hash (owner ^^ String.◌∷◌ slash repository) number (
          Every-append (no_char b'#') owner (String.◌∷◌ slash repository)
            (Every-map owner_char (no_char b'#') owner (λ c h. ground arith) o)
            (refl, Every-map repository_char (no_char b'#') repository (λ c h. ground arith) r))) in
    let at_slash : cut "/" (owner ^^ String.◌∷◌ slash repository) ≡ some (owner, repository) =
      cut_lem slash owner repository
        (Every-map owner_char (no_char b'/') owner (λ c h. ground arith) o) in
    rw (normalised-spelled owner repository number o r d, at_hash, at_slash, read) ground
      (arith, eq_iff owner "", eq_iff repository "")

one-append : (a : Char) (s : String) → String.◌∷◌ a "" ^^ s ≡ String.◌∷◌ a s
one-append a s = cons-append a "" s ∙ ap (String.◌∷◌ a) (nil-append s)

reference-spelled :
    (owner repository : String) (n : ℕ)
    → reference owner repository (pos n) ≡ spelled owner repository (itoa n)
unfolding reference
reference-spelled owner repository n =
    rw (one-append slash (repository ^^ "#" ^^ itoa n), one-append hash (itoa n)) refl

-- What a pull request or a watch is called names it: `ParseReference` reads the reference of a pull
-- request back as its owner, its repository and its number, where the number is a positive one of 64
-- bits, the names are not empty and have no white space, `/` or `#`, and the owner's has no dot.
pub parse_reference-reference :
    (owner repository : String) (n : ℕ)
    → Every owner_char owner
    → Every repository_char repository
    → owner ≢ ""
    → repository ≢ ""
    → 0 < n
    → n ≤ max_int
    → parse_reference (reference owner repository (pos n)) ≡ some (owner, repository, pos n)
parse_reference-reference owner repository n o r no_owner no_repository small large =
    rw (reference-spelled owner repository n) (
      parsed owner repository (itoa n) n o r (unfold itoa in Every-digits n n) no_owner
        no_repository (atoi-itoa n large) small)
