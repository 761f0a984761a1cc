-- ===== src/Daemon/Settling.antt =====
-- internal/daemon/reload.go: `watchConfiguration`, which reloads a file that has settled. SHA-256 is
-- an argument.
use lac.Base.{
  String, ℕ, suc, Bool, true, false, not, ◌&&◌, Option, none, some, List, [], ◌∷◌, ltb,
  if◌then◌else◌, zero,
}
use lac.Store.Credentials.{same_bytes}

-- `fingerprint`: the digest of the contents, or that they cannot be read.
pub record Fingerprint : Type 0 where
  pub digest : List ℕ
  pub missing : Bool

abbrev pub stable_checks : ℕ
stable_checks = 3

abbrev pub zeros : ℕ → List ℕ
zeros zero = []
zeros (suc n) = 0 ∷ zeros n

-- `fingerprint{}`.
abbrev pub blank : Fingerprint
blank = record { digest = zeros 32; missing = false }

-- `fingerprintOf`, of the contents if they can be read.
unfoldable pub fingerprint_of : (String → List ℕ) → Option String → Fingerprint
fingerprint_of sha256 none = record { digest = zeros 32; missing = true }
fingerprint_of sha256 (some contents) = record { digest = sha256 contents; missing = false }

abbrev same_flag : Bool → Bool → Bool
same_flag true b = b
same_flag false b = not b

unfoldable pub same_fingerprint : Fingerprint → Fingerprint → Bool
unfolding same_bytes
same_fingerprint a b = same_flag a.missing b.missing && same_bytes a.digest b.digest

-- The variables of the loop.
pub record Watching : Type 0 where
  pub loaded : Fingerprint
  pub candidate : Fingerprint
  pub quiet_reads : ℕ

-- A tick of the loop: what the file reads now, and whether a reload of it would succeed.
pub record Reading : Type 0 where
  pub current : Fingerprint
  pub succeeds : Bool

-- The start of `watchConfiguration`.
unfoldable pub start : Fingerprint → Watching
start loaded = record { loaded = loaded; candidate = blank; quiet_reads = 0 }

-- The end of the loop body once the file has settled: whether it was reloaded or not, the counting
-- starts again.
unfoldable pub settled : Reading → Watching → Watching
settled r w =
    if r.succeeds
    then record { loaded = r.current; candidate = blank; quiet_reads = 0 }
    else record w { candidate = blank; quiet_reads = 0 }

-- The loop body: whether `Reload` is called, and the variables after it.
unfoldable pub tick : Reading → Watching → Bool × Watching
unfolding same_fingerprint settled
tick r w =
    if same_fingerprint r.current w.loaded
    then (false, record w { candidate = blank; quiet_reads = 0 })
    else if same_fingerprint r.current w.candidate
    then (if ltb (suc w.quiet_reads) stable_checks
        then (false, record w { quiet_reads = suc w.quiet_reads })
        else (true, settled r w))
    else (false, record w { candidate = r.current; quiet_reads = 1 })

-- The loop over the readings so far, the newest first.
unfoldable pub watched : Fingerprint → List Reading → Watching
unfolding start tick
watched loaded [] = start loaded
watched loaded (r ∷ before) = (tick r (watched loaded before)).1
