-- ===== src/Daemon/Tests.antt =====
-- A configuration file that is edited once and then left alone.
use lac.Base.{◌≤◌, true, false, List, [], ◌∷◌, ◌≡◌, refl}
use lac.Store.Credentials.{same_bytes}
use lac.Daemon.Settling.{
  Fingerprint, Reading, tick, watched, start, settled, same_fingerprint, stable_checks,
}
use lac.Daemon.Quiet.{running, only_a_settled_file_is_reloaded, settled_file_is_reloaded}

abbrev old_file : Fingerprint
old_file = record { digest = 1 ∷ []; missing = false }

abbrev new_file : Fingerprint
new_file = record { digest = 2 ∷ []; missing = false }

abbrev reading : Reading
reading = record { current = new_file; succeeds = true }

abbrev same_again : List Reading
same_again = reading ∷ reading ∷ []

only_a_settled_file_is_reloaded_example :
    (stable_checks ≤ running new_file (reading ∷ same_again))
    × (same_fingerprint new_file (watched old_file same_again).loaded ≡ false)
only_a_settled_file_is_reloaded_example =
    only_a_settled_file_is_reloaded old_file same_again reading
      (unfold tick watched start settled same_fingerprint same_bytes in refl)

settled_file_is_reloaded_example :
    (tick reading (tick reading (tick reading (watched old_file [])).1).1).0 ≡ true
settled_file_is_reloaded_example =
    settled_file_is_reloaded old_file new_file [] true true true
      (unfold watched start same_fingerprint same_bytes in refl)
      (unfold same_fingerprint same_bytes in refl)
      (unfold tick watched start settled same_fingerprint same_bytes in refl)
      (unfold tick watched start settled same_fingerprint same_bytes in refl)
