-- ===== src/Strings/Laws.antt =====
-- Laws of the string functions at texts that are made of other texts.
use Prim.Native.Char.{Char, code}
use text.Mathlib.TextLemmas.{nil-append, cons-append}
use lac.Base.{ℕ, String, ◌^^◌, Bool, true, false, not, ◌||◌, none, some, ◌≡◌, refl, arith}
use lac.Strings.{is_code, is_space, trim_left, trim_right, trim_space, strip_prefix, cut}

-- Every character passes the test.
abbrev pub Every : (ℕ → Bool) → String → Type 0
Every p String.[] = Unit
Every p (String.◌∷◌ c s) = (p (code c) ≡ true) × Every p s

pub Every-append : (p : ℕ → Bool) (s t : String) → Every p s → Every p t → Every p (s ^^ t)
Every-append p String.[] t h k = rw nil-append k
Every-append p (String.◌∷◌ c s) t h k = rw cons-append (h.0, Every-append p s t h.1 k)

pub Every-map :
    (p q : ℕ → Bool) (s : String) → ((c : ℕ) → p c ≡ true → q c ≡ true) → Every p s → Every q s
Every-map p q String.[] f h = tt
Every-map p q (String.◌∷◌ c s) f h = (f (code c) h.0, Every-map p q s f h.1)

abbrev pub no_space : ℕ → Bool
no_space c = not (is_space c)

-- Whether a text has the character.
abbrev pub is_found_code : ℕ → String → Bool
is_found_code b String.[] = false
is_found_code b (String.◌∷◌ c s) = is_code b (code c) || is_found_code b s

trim_right_lem : (s : String) → Every no_space s → trim_right s ≡ s
unfolding trim_right
trim_right_lem String.[] h = refl
trim_right_lem (String.◌∷◌ c s) h = ground (arith, trim_right_lem s h.1)

-- A text without white space is left as it is.
pub trim_space_lem : (s : String) → Every no_space s → trim_space s ≡ s
unfolding trim_space trim_left
trim_space_lem String.[] h = unfold trim_right in refl
trim_space_lem (String.◌∷◌ c s) h = ground (arith, h.0, trim_right_lem (String.◌∷◌ c s) h)

abbrev pub no_char : ℕ → ℕ → Bool
no_char a c = not (is_code a c)

-- A text is cut at the first separator of one character.
pub cut_lem :
    (a : Char) (s t : String)
    → Every (no_char (code a)) s
    → cut (String.◌∷◌ a "") (s ^^ String.◌∷◌ a t) ≡ some (s, t)
unfolding cut strip_prefix
cut_lem a String.[] t h = rw nil-append (ground arith)
cut_lem a (String.◌∷◌ c s) t h = rw cons-append (ground (arith, h.0, cut_lem a s t h.1))

-- A text without a character of the separator is not cut.
pub strip_prefix-none :
    (b : ℕ) (p s : String)
    → Every (no_char b) s
    → is_found_code b p ≡ true
    → strip_prefix p s ≡ none
unfolding strip_prefix
strip_prefix-none b String.[] s h k = absurd (ground arith)
strip_prefix-none b (String.◌∷◌ a p) String.[] h k = refl
strip_prefix-none b (String.◌∷◌ a p) (String.◌∷◌ c s) h k =
    ground (arith, h.0, strip_prefix-none b p s h.1)

pub cut-none :
    (b : ℕ) (p s : String) → Every (no_char b) s → is_found_code b p ≡ true → cut p s ≡ none
unfolding cut
cut-none b p String.[] h k = rw (strip_prefix-none b p "" h k) refl
cut-none b p (String.◌∷◌ c s) h k =
    rw (strip_prefix-none b p (String.◌∷◌ c s) h k, cut-none b p s h.1 k) refl
