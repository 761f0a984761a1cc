-- ===== src/Prwatch/BackOff.antt =====
-- internal/service/prwatch/prwatch.go: how long `backoffFor` waits.
use lac.Base.{ℕ, zero, suc, ◌-◌, ◌*◌, ◌/◌, ◌≤◌, ◌<◌, min, ◌≡◌, arith, pos}
use lac.Prwatch.Polling.{back_off, doubled, max_back_off}

-- `wait`, doubled as many times.
unfoldable pub doubling : ℕ → ℕ → ℕ
doubling zero wait = wait
doubling (suc times) wait = 2 * doubling times wait

doubling-twice : (times wait : ℕ) → doubling times (wait * 2) ≡ 2 * doubling times wait
unfolding doubling
doubling-twice zero wait = omega arith
doubling-twice (suc times) wait = let ih = doubling-twice times wait in omega arith

doubling_grows : (times wait : ℕ) → wait ≤ doubling times wait
unfolding doubling
doubling_grows zero wait = omega arith
doubling_grows (suc times) wait = let ih = doubling_grows times wait in omega arith

-- The loop meets the cap where the doubling passes it.
doubled_lem :
    (rounds wait : ℕ)
    → wait ≤ max_back_off
    → doubled rounds wait ≡ min max_back_off (doubling rounds wait)
unfolding doubled doubling
doubled_lem zero wait within = omega arith
doubled_lem (suc rounds) wait within =
    let ih = doubled_lem rounds (wait * 2) in
    let twice = doubling-twice rounds wait in let grows = doubling_grows rounds wait in ground arith

-- After one failure the wait is the interval, and each further one doubles it until it meets fifteen
-- minutes; the random part is less than a quarter of that. This holds of an interval of at least four
-- nanoseconds that is not above fifteen minutes, and of numbers drawn below what they are drawn from.
pub back_off_is_bounded :
    (random : ℕ → ℕ)
    → ((n : ℕ) → 0 < n → random n < n)
    → (interval failures : ℕ) → 4 ≤ interval
    → interval ≤ max_back_off
    → (min max_back_off (doubling (failures - 1) interval)
        ≤ back_off random (pos interval) failures)
      × (4 * back_off random (pos interval) failures
          < 5 * min max_back_off (doubling (failures - 1) interval))
unfolding back_off
back_off_is_bounded random below interval failures positive within =
    let capped = doubled_lem (failures - 1) interval within in
    let grows = doubling_grows (failures - 1) interval in
    let drawn = below (doubled (failures - 1) interval / 4) (ground arith) in
    (omega arith, omega arith)
