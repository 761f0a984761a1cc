-- ===== src/Dispatch/Workdir.antt =====
-- internal/service/dispatch/dispatch.go: `within`, and what `resolveWorkdir` uses of Go's
-- path/filepath, on Unix. A path is whether it is absolute, and its elements.
use Prim.Native.Char.{code, Char}
use lac.Base.{
  ℕ, String, ◌^^◌, ◌==◌, Bool, true, false, not, ◌&&◌, ◌||◌, Option, none, some, List, [], ◌∷◌, leb,
  if◌then◌else◌,
}

pub record FilePath : Type 0 where
  pub rooted : Bool
  pub parts : List String

abbrev is_slash : ℕ → Bool
is_slash c = leb b'/' c && leb c b'/'

abbrev attach : Char → List String → List String
attach c [] = String.◌∷◌ c String.[] ∷ []
attach c (w ∷ ws) = String.◌∷◌ c w ∷ ws

-- What stands between the slashes.
unfoldable pub elements : String → List String
elements String.[] = "" ∷ []
elements (String.◌∷◌ c s) =
    let rest = elements s in if is_slash (code c) then "" ∷ rest else attach c rest

-- `filepath.IsAbs`.
abbrev pub is_absolute : String → Bool
is_absolute String.[] = false
is_absolute (String.◌∷◌ c s) = is_slash (code c)

-- One element of a path, onto the cleaned ones, which stand last first: an empty one and `.` say
-- nothing, and `..` takes one back, stays where there is none, and is dropped at the root.
unfoldable pub push_element : Bool → String → List String → List String
push_element rooted e [] =
    if e == "" || e == "." then [] else if e == ".." && rooted then [] else e ∷ []
push_element rooted e (d ∷ done) =
    if e == "" || e == "."
    then d ∷ done
    else if e == ".." && not (d == "..")
    then done
    else e ∷ d ∷ done

unfoldable pub clean_elements : Bool → List String → List String → List String
unfolding push_element
clean_elements rooted done [] = done
clean_elements rooted done (e ∷ es) = clean_elements rooted (push_element rooted e done) es

abbrev pub reversed : List String → List String → List String
reversed [] acc = acc
reversed (x ∷ xs) acc = reversed xs (x ∷ acc)

-- `filepath.Clean`.
unfoldable pub clean : String → FilePath
unfolding elements clean_elements
clean path = record {
  rooted = is_absolute path;
  parts = reversed (clean_elements (is_absolute path) [] (elements path)) [];
}

abbrev joined : List String → String
joined [] = ""
joined (e ∷ []) = e
joined (e ∷ f ∷ es) = e ^^ "/" ^^ joined (f ∷ es)

abbrev named_or_dot : String → String
named_or_dot text = if text == "" then "." else text

-- The text of a cleaned path.
unfoldable pub text_of : FilePath → String
text_of p = if p.rooted then "/" ^^ joined p.parts else named_or_dot (joined p.parts)

abbrev pub ups : List String → List String → List String
ups [] rest = rest
ups (b ∷ bs) rest = ".." ∷ ups bs rest

-- The elements that lead from the first path to the second: where they part, one `..` for each
-- element that the first has left. Where two elements differ the first's must not be `..`.
unfoldable pub rel_parts : List String → List String → Option (List String)
rel_parts [] target = some target
rel_parts (b ∷ base) [] = some (ups (b ∷ base) [])
rel_parts (b ∷ base) (t ∷ target) =
    let rest = rel_parts base target in
    if b == t then rest else if b == ".." then none else some (ups (b ∷ base) (t ∷ target))

-- `filepath.Rel` on cleaned paths; it fails when only one of them is absolute.
unfoldable pub rel : FilePath → FilePath → Option (List String)
unfolding rel_parts
rel base target = elim base.rooted [
  | true ↦ if target.rooted then rel_parts base.parts target.parts else none
  | false ↦ if target.rooted then none else rel_parts base.parts target.parts
]

-- `relative != ".."`, and no prefix `"../"`: the first element is not `..`.
unfoldable pub stays_below : List String → Bool
stays_below [] = true
stays_below (e ∷ es) = not (e == "..")

-- `within`.
unfoldable pub within : FilePath → FilePath → Bool
unfolding rel text_of stays_below
within path root =
    if text_of path == text_of root
    then true
    else elim (rel root path) [ some relative ↦ stays_below relative | none ↦ false ]
