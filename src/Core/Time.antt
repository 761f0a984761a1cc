-- ===== src/Core/Time.antt =====
-- Instants and their storage form, store/sqlite/convert.go. An instant is a number of nanoseconds
-- since the Unix epoch and a stored one a number of microseconds; Go's zero time is `none`. A
-- duration is a signed number of nanoseconds.
use lac.Base.{ℕ, ◌+◌, ◌*◌, ◌/◌, Option, none, some, ℤ, pos_part, arith, ◌≡◌, ltb}

abbrev pub Time : Type 0
Time = ℕ

abbrev pub Duration : Type 0
Duration = ℤ

-- `t.Add(d)` for a duration that is not negative.
abbrev pub add_duration : Time → Duration → Time
add_duration t d = t + pos_part d

-- `requireMicros`: `UnixMicro` drops the part below a microsecond.
unfoldable pub require_micros : Time → ℕ
require_micros t = t / 1000

-- `toMicros`: the zero time becomes NULL.
unfoldable pub to_micros : Option Time → Option ℕ
unfolding require_micros
to_micros none = none
to_micros (some t) = some (require_micros t)

-- `fromRequiredMicros`.
unfoldable pub from_required_micros : ℕ → Time
from_required_micros m = m * 1000

-- `fromMicros`: NULL becomes the zero time.
unfoldable pub from_micros : Option ℕ → Option Time
unfolding from_required_micros
from_micros none = none
from_micros (some m) = some (from_required_micros m)

-- Against a stored instant, the database's comparison of microseconds is Go's of nanoseconds.
pub ltb-require_micros :
    (t : Time) (m : ℕ) → ltb (require_micros t) m ≡ ltb t (from_required_micros m)
unfolding require_micros from_required_micros
ltb-require_micros t m = ground arith
