-- ===== src/Leasing/Events.antt =====
-- Histories of the leasing service: each event is one operation of leasing.go at a time of the clock,
-- or one of the atomic parts of a blocking `Acquire` (joining the queue, one attempt of the wait
-- loop, giving up). `describe` and `format_time` are the texts that the audit entries hold.
use lac.Base.{ℕ, ◌≤◌, String, List, [], ◌∷◌}
use lac.Base.Result.{Error}
use lac.Core.Time.{Time}
use lac.Core.Resource.{Resource}
use lac.Core.Lease.{QueueEntry}
use lac.Leasing.State.{Service}
use lac.Leasing.Resources.{define}
use lac.Leasing.Grant.{try_grant}
use lac.Leasing.Acquire.{AcquireRequest, join, abandon, watch}
use lac.Leasing.Holding.{renew, release, force_release, cancel, force_cancel}
use lac.Leasing.Reclaim.{release_everything_held_by, free_resource, clear_queue, reap_expired}

pub data Event : Type 0 where
  defines : String → Resource → Event
  joins : AcquireRequest → String → Event
  attempts : QueueEntry → List ℕ → String → Event
  gives_up : QueueEntry → Error → Event
  renews releases force_releases cancels force_cancels : String → String → Event
  reclaims : String → String → String → Event
  frees clears : String → String → Event
  reaps : Event

module _ (describe : Resource → String) (format_time : Time → String) where
  unfoldable pub apply : Time → Event → Service → Service
  apply now (defines actor r) s = (define describe actor r now s).1
  apply now (joins request entry_id) s = (join request entry_id now s).1
  apply now (attempts entry metadata lease_id) s =
      (try_grant entry metadata lease_id now (watch entry.resource_name s)).1
  apply now (gives_up entry cause) s = abandon entry cause now s
  apply now (renews agent lease) s = (renew agent lease now s).1
  apply now (releases agent lease) s = (release agent lease now s).1
  apply now (force_releases actor lease) s = (force_release actor lease now s).1
  apply now (cancels agent entry) s = (cancel agent entry now s).1
  apply now (force_cancels actor entry) s = (force_cancel actor entry now s).1
  apply now (reclaims actor agent reason) s =
      (release_everything_held_by actor agent reason now s).1
  apply now (frees actor resource) s = (free_resource actor resource now s).1
  apply now (clears actor resource) s = (clear_queue actor resource now s).1
  apply now reaps s = (reap_expired format_time now s).1

  unfoldable pub replay : List (Time × Event) → Service → Service
  unfolding apply
  replay [] s = s
  replay ((now, e) ∷ es) s = replay es (apply now e s)

-- The clock does not run backwards.
abbrev pub Forward : Time → List (Time × Event) → Type 0
Forward clock [] = Unit
Forward clock ((now, e) ∷ es) = (clock ≤ now) × Forward now es

abbrev pub last_time : Time → List (Time × Event) → Time
last_time clock [] = clock
last_time clock ((now, e) ∷ es) = last_time now es
