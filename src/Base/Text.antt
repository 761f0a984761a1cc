-- ===== src/Base/Text.antt =====
-- The order of texts, as the database's BINARY collation has it: that of the bytes of the UTF-8,
-- which is that of the code points.
use Prim.Native.Char.{code}
use Prim.Native.String.{String}
use mathlib.Core.Path.{◌≡◌, refl}
use mathlib.Core.Bool.{Bool, true, false}
use native.Mathlib.Omega.{arith}
use lac.Base.Tests.{ltb, if◌then◌else◌}

pub text_lt : String → String → Bool
text_lt String.[] String.[] = false
text_lt String.[] (String.◌∷◌ d t) = true
text_lt (String.◌∷◌ c s) String.[] = false
text_lt (String.◌∷◌ c s) (String.◌∷◌ d t) =
    if ltb (code c) (code d) then true else if ltb (code d) (code c) then false else text_lt s t

pub text_lt_asymm : (s t : String) → text_lt s t ≡ true → text_lt t s ≡ false
unfolding text_lt
text_lt_asymm String.[] String.[] h = refl
text_lt_asymm String.[] (String.◌∷◌ d t) h = refl
text_lt_asymm (String.◌∷◌ c s) String.[] h = cc
text_lt_asymm (String.◌∷◌ c s) (String.◌∷◌ d t) h = ground (arith, text_lt_asymm s t)

-- What is not before `y`, where `y` is not before `x`, is not before `x`.
pub text_ge_trans :
    (z y x : String) → text_lt z y ≡ false → text_lt y x ≡ false → text_lt z x ≡ false
unfolding text_lt
text_ge_trans String.[] String.[] x h k = k
text_ge_trans String.[] (String.◌∷◌ d t) x h k = ground arith
text_ge_trans (String.◌∷◌ c s) y String.[] h k = refl
text_ge_trans (String.◌∷◌ c s) String.[] (String.◌∷◌ e u) h k = ground arith
text_ge_trans (String.◌∷◌ c s) (String.◌∷◌ d t) (String.◌∷◌ e u) h k =
    ground (arith, text_ge_trans s t u)
