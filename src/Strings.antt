-- ===== src/Strings.antt =====
-- What the program uses of Go's packages strings and strconv. A text is its characters, so a
-- position counts characters; `byte_length` counts the bytes of the UTF-8.
pub mod Numbers
pub mod Laws
use Prim.Native.Char.{Char, code, len_utf8}
use lac.Base.{
  ℕ, zero, suc, ◌+◌, ◌-◌, ◌≤◌, String, ◌^^◌, ◌==◌, Bool, true, false, not, ◌&&◌, ◌||◌, Option, none,
  some, List, [], ◌∷◌, leb, if◌then◌else◌, exists,
}

abbrev pub is_code : ℕ → ℕ → Bool
is_code a b = leb a b && leb b a

-- `unicode.IsSpace`.
unfoldable pub is_space : ℕ → Bool
is_space c =
    (leb 9 c && leb c 13)
    || exists (is_code c)
        (32 ∷ 0x85 ∷ 0xa0 ∷ 0x1680 ∷ 0x2028 ∷ 0x2029 ∷ 0x202f ∷ 0x205f ∷ 0x3000 ∷ [])
    || (leb 0x2000 c && leb c 0x200a)

unfoldable pub trim_left : String → String
trim_left String.[] = ""
trim_left (String.◌∷◌ c s) =
    let rest = trim_left s in if is_space (code c) then rest else String.◌∷◌ c s

abbrev pub is_empty_text : String → Bool
is_empty_text String.[] = true
is_empty_text (String.◌∷◌ c s) = false

unfoldable pub trim_right : String → String
trim_right String.[] = ""
trim_right (String.◌∷◌ c s) =
    let rest = trim_right s in
    if is_empty_text rest && is_space (code c) then "" else String.◌∷◌ c rest

-- `TrimSpace`.
unfoldable pub trim_space : String → String
unfolding trim_left trim_right
trim_space s = trim_right (trim_left s)

-- What follows the prefix, where the text has it.
unfoldable pub strip_prefix : String → String → Option String
strip_prefix String.[] s = some s
strip_prefix (String.◌∷◌ a p) String.[] = none
strip_prefix (String.◌∷◌ a p) (String.◌∷◌ c s) =
    let rest = strip_prefix p s in if is_code (code a) (code c) then rest else none

abbrev pub or_keep : String → Option String → String
or_keep s none = s
or_keep s (some rest) = rest

-- `TrimPrefix`.
abbrev pub trim_prefix : String → String → String
trim_prefix s prefix = or_keep s (strip_prefix prefix s)

abbrev pub is_found : {A : Type 0} → Option A → Bool
is_found none = false
is_found (some a) = true

abbrev pub has_prefix : String → String → Bool
has_prefix s prefix = is_found (strip_prefix prefix s)

abbrev pub push_front : Char → Option (String × String) → Option (String × String)
push_front c none = none
push_front c (some (before, after)) = some (String.◌∷◌ c before, after)

abbrev pub found_or : Option String → Option (String × String) → Option (String × String)
found_or (some after) rest = some ("", after)
found_or none rest = rest

-- `Cut`: what stands before the first separator and after it.
unfoldable pub cut : String → String → Option (String × String)
unfolding strip_prefix
cut separator String.[] = found_or (strip_prefix separator "") none
cut separator (String.◌∷◌ c s) =
    found_or (strip_prefix separator (String.◌∷◌ c s)) (push_front c (cut separator s))

-- `Contains`.
abbrev pub contains : String → String → Bool
contains s part = is_found (cut part s)

abbrev pub before_or_all : String → Option (String × String) → String
before_or_all s none = s
before_or_all s (some (before, after)) = before

-- The first result of `Cut`.
abbrev pub before : String → String → String
before separator s = before_or_all s (cut separator s)

abbrev pub count_chars : String → ℕ
count_chars String.[] = 0
count_chars (String.◌∷◌ c s) = suc (count_chars s)

-- `ReplaceAll` for an `old` that is not empty; `skip` characters are left of a match.
unfoldable pub replace_from : String → String → ℕ → String → String
unfolding strip_prefix
replace_from old new skip String.[] = ""
replace_from old new (suc skip) (String.◌∷◌ c s) = replace_from old new skip s
replace_from old new zero (String.◌∷◌ c s) =
    let matched = new ^^ replace_from old new (count_chars old - 1) s in
    let moved = String.◌∷◌ c (replace_from old new zero s) in
    if has_prefix (String.◌∷◌ c s) old then matched else moved

abbrev pub replace_all : String → String → String → String
replace_all s old new = replace_from old new zero s

-- `Join`.
unfoldable pub join : String → List String → String
join separator [] = ""
join separator (s ∷ []) = s
join separator (s ∷ t ∷ rest) = s ^^ separator ^^ join separator (t ∷ rest)

-- The bytes of a text, Go's `len`.
unfoldable pub byte_length : String → ℕ
byte_length String.[] = 0
byte_length (String.◌∷◌ c s) = len_utf8 c + byte_length s

-- The first `n` bytes, `s[:n]`; a character that the cut would split is left out.
unfoldable pub first_bytes : ℕ → String → String
first_bytes n String.[] = ""
first_bytes n (String.◌∷◌ c s) =
    let rest = first_bytes (n - len_utf8 c) s in
    if leb (len_utf8 c) n then String.◌∷◌ c rest else ""

-- The character that stands in `to` where `c` stands in `from`.
unfoldable pub translate : String → String → Char → Char
translate String.[] to c = c
translate (String.◌∷◌ a from) String.[] c = c
translate (String.◌∷◌ a from) (String.◌∷◌ b to) c =
    let rest = translate from to c in if is_code (code a) (code c) then b else rest

-- `ToLower`, of ASCII letters: the codes of a protocol have no others.
unfoldable pub to_lower : String → String
unfolding translate
to_lower String.[] = ""
to_lower (String.◌∷◌ c s) =
    String.◌∷◌ (translate "ABCDEFGHIJKLMNOPQRSTUVWXYZ" "abcdefghijklmnopqrstuvwxyz" c) (to_lower s)

-- `EqualFold`, of ASCII texts.
abbrev pub equal_fold : String → String → Bool
equal_fold s t = to_lower s == to_lower t
