-- ===== src/Strings/Numbers.antt =====
-- Go's `strconv.Itoa` and `strconv.Atoi`.
use Prim.Native.Char.{code}
use Prim.Native.Nat.{◌%◌}
use text.Mathlib.TextLemmas.{nil-append, cons-append}
use lac.Strings.{is_empty_text}
use lac.Strings.Laws.{Every, Every-append}
use lac.Base.{
  ℕ, zero, suc, ◌+◌, ◌-◌, ◌*◌, ◌/◌, ◌≤◌, ◌<◌, ◌≡◌, refl, arith, Bool-cases, inl, inr, String, ◌^^◌,
  Bool, false, ◌&&◌, Option, none, some, leb, ltb, if◌then◌else◌, ℤ, pos, negsuc,
}

-- The character of a digit.
unfoldable pub digit : ℕ → String
digit zero = "0"
digit (suc zero) = "1"
digit (suc (suc zero)) = "2"
digit (suc (suc (suc zero))) = "3"
digit (suc (suc (suc (suc zero)))) = "4"
digit (suc (suc (suc (suc (suc zero))))) = "5"
digit (suc (suc (suc (suc (suc (suc zero)))))) = "6"
digit (suc (suc (suc (suc (suc (suc (suc zero))))))) = "7"
digit (suc (suc (suc (suc (suc (suc (suc (suc zero)))))))) = "8"
digit _ = "9"

-- The decimal digits of a number, with fuel for as many divisions by ten as it has digits.
unfoldable pub digits : ℕ → ℕ → String
unfolding digit
digits zero n = digit n
digits (suc fuel) n =
    let more = digits fuel (n / 10) ^^ digit (n % 10) in if ltb n 10 then digit n else more

-- `Itoa` of a number that is not negative. A number has fewer digits than its value.
unfoldable pub itoa : ℕ → String
unfolding digits
itoa n = digits n n

abbrev pub itoa_ℤ : ℤ → String
itoa_ℤ (pos n) = itoa n
itoa_ℤ (negsuc n) = "-" ^^ itoa (suc n)

abbrev pub is_digit : ℕ → Bool
is_digit c = leb b'0' c && leb c b'9'

-- Reads digits up to the end of the text, onto a value read before.
unfoldable pub read_digits : ℕ → String → Option ℕ
read_digits acc String.[] = some acc
read_digits acc (String.◌∷◌ c s) =
    let rest = read_digits (acc * 10 + (code c - b'0')) s in
    if is_digit (code c) then rest else none

abbrev pub in_range : ℕ → Option ℕ → Option ℕ
in_range limit none = none
in_range limit (some n) = if leb n limit then some n else none

abbrev pub negated : ℕ → ℤ
negated zero = pos 0
negated (suc n) = negsuc n

abbrev pub positive : Option ℕ → Option ℤ
positive none = none
positive (some n) = some (pos n)

abbrev pub negative : Option ℕ → Option ℤ
negative none = none
negative (some n) = some (negated n)

abbrev pub max_int : ℕ
max_int = 9223372036854775807

unfoldable pub read_number : String → Option ℕ
unfolding read_digits
read_number String.[] = none
read_number (String.◌∷◌ c s) = read_digits 0 (String.◌∷◌ c s)

-- `Atoi`: a sign, digits, and a value of 64 bits.
unfoldable pub atoi : String → Option ℤ
unfolding read_number
atoi String.[] = none
atoi (String.◌∷◌ c s) =
    if leb b'-' (code c) && leb (code c) b'-'
    then negative (in_range (suc max_int) (read_number s))
    else if leb b'+' (code c) && leb (code c) b'+'
    then positive (in_range max_int (read_number s))
    else positive (in_range max_int (read_number (String.◌∷◌ c s)))

abbrev pub and_read : String → Option ℕ → Option ℕ
and_read s none = none
and_read s (some acc) = read_digits acc s

read_digits-append :
    (acc : ℕ) (s t : String) → read_digits acc (s ^^ t) ≡ and_read t (read_digits acc s)
unfolding read_digits
read_digits-append acc String.[] t = rw nil-append
read_digits-append acc (String.◌∷◌ c s) t =
    rw cons-append (ground (arith, read_digits-append (acc * 10 + (code c - b'0')) s t))

read_digits-digit : (acc n : ℕ) → n < 10 → read_digits acc (digit n) ≡ some (acc * 10 + n)
unfolding read_digits digit
read_digits-digit acc zero h = ground arith
read_digits-digit acc (suc zero) h = ground arith
read_digits-digit acc (suc (suc zero)) h = ground arith
read_digits-digit acc (suc (suc (suc zero))) h = ground arith
read_digits-digit acc (suc (suc (suc (suc zero)))) h = ground arith
read_digits-digit acc (suc (suc (suc (suc (suc zero))))) h = ground arith
read_digits-digit acc (suc (suc (suc (suc (suc (suc zero)))))) h = ground arith
read_digits-digit acc (suc (suc (suc (suc (suc (suc (suc zero))))))) h = ground arith
read_digits-digit acc (suc (suc (suc (suc (suc (suc (suc (suc zero)))))))) h = ground arith
read_digits-digit acc (suc (suc (suc (suc (suc (suc (suc (suc (suc zero))))))))) h = ground arith
read_digits-digit acc (suc (suc (suc (suc (suc (suc (suc (suc (suc (suc n)))))))))) h =
    absurd (omega arith)

read_digits-digits : (fuel n : ℕ) → n ≤ fuel → read_digits 0 (digits fuel n) ≡ some n
unfolding digits
read_digits-digits zero n h = ground (arith, read_digits-digit 0 n)
read_digits-digits (suc fuel) n h = ground (
  arith,
  read_digits-digit 0 n,
  read_digits-append 0 (digits fuel (n / 10)) (digit (n % 10)),
  read_digits-digits fuel (n / 10),
  read_digits-digit (n / 10) (n % 10),
)

Every-digit : (n : ℕ) → Every is_digit (digit n)
unfolding digit
Every-digit zero = (refl, tt)
Every-digit (suc zero) = (refl, tt)
Every-digit (suc (suc zero)) = (refl, tt)
Every-digit (suc (suc (suc zero))) = (refl, tt)
Every-digit (suc (suc (suc (suc zero)))) = (refl, tt)
Every-digit (suc (suc (suc (suc (suc zero))))) = (refl, tt)
Every-digit (suc (suc (suc (suc (suc (suc zero)))))) = (refl, tt)
Every-digit (suc (suc (suc (suc (suc (suc (suc zero))))))) = (refl, tt)
Every-digit (suc (suc (suc (suc (suc (suc (suc (suc zero)))))))) = (refl, tt)
Every-digit (suc (suc (suc (suc (suc (suc (suc (suc (suc n))))))))) = (refl, tt)

pub Every-digits : (fuel n : ℕ) → Every is_digit (digits fuel n)
unfolding digits
Every-digits zero n = Every-digit n
Every-digits (suc fuel) n = elim (Bool-cases (ltb n 10)) [
  | inl e ↦ rw e (Every-digit n)
  | inr e ↦ rw e (
      Every-append is_digit (digits fuel (n / 10)) (digit (n % 10)) (Every-digits fuel (n / 10))
        (Every-digit (n % 10)))
]

is_empty_text-append : (s t : String) → is_empty_text s ≡ false → is_empty_text (s ^^ t) ≡ false
is_empty_text-append String.[] t h = absurd (ground arith)
is_empty_text-append (String.◌∷◌ c s) t h = rw cons-append refl

is_empty_text-digit : (n : ℕ) → is_empty_text (digit n) ≡ false
unfolding digit
is_empty_text-digit zero = refl
is_empty_text-digit (suc zero) = refl
is_empty_text-digit (suc (suc zero)) = refl
is_empty_text-digit (suc (suc (suc zero))) = refl
is_empty_text-digit (suc (suc (suc (suc zero)))) = refl
is_empty_text-digit (suc (suc (suc (suc (suc zero))))) = refl
is_empty_text-digit (suc (suc (suc (suc (suc (suc zero)))))) = refl
is_empty_text-digit (suc (suc (suc (suc (suc (suc (suc zero))))))) = refl
is_empty_text-digit (suc (suc (suc (suc (suc (suc (suc (suc zero)))))))) = refl
is_empty_text-digit (suc (suc (suc (suc (suc (suc (suc (suc (suc n))))))))) = refl

is_empty_text-digits : (fuel n : ℕ) → is_empty_text (digits fuel n) ≡ false
unfolding digits
is_empty_text-digits zero n = is_empty_text-digit n
is_empty_text-digits (suc fuel) n = elim (Bool-cases (ltb n 10)) [
  | inl e ↦ rw e (is_empty_text-digit n)
  | inr e ↦ rw e (
      is_empty_text-append (digits fuel (n / 10)) (digit (n % 10))
        (is_empty_text-digits fuel (n / 10)))
]

atoi_lem :
    (s : String) (n : ℕ)
    → Every is_digit s
    → is_empty_text s ≡ false
    → read_digits 0 s ≡ some n
    → n ≤ max_int
    → atoi s ≡ some (pos n)
unfolding atoi
atoi_lem String.[] n h k r m = absurd (ground arith)
atoi_lem (String.◌∷◌ c s) n h k r m = ground (arith, h.0)

-- A number that is written out is read back.
pub atoi-itoa : (n : ℕ) → n ≤ max_int → atoi (itoa n) ≡ some (pos n)
unfolding itoa
atoi-itoa n m =
    atoi_lem (digits n n) n (Every-digits n n) (is_empty_text-digits n n)
      (read_digits-digits n n (omega arith)) m
