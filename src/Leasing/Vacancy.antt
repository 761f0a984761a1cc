-- ===== src/Leasing/Vacancy.antt =====
-- What is left when leases are reaped, and when a resource is freed.
pub mod Queues
use lac.Base.{
  count_where-none, ℕ, zero, suc, ◌+◌, ◌≤◌, String, ◌==◌, Bool, true, false, Option, none, some,
  List, [], ◌∷◌, ◌++◌, ◌^^◌, ◌≡◌, refl, ap, ◌∙◌, ◌&&◌, update_where, map, arith, exists, find,
  select, order_by, count_where, length, ltb, Option-cases, inl, inr,
}
use lac.Base.Loops.{length-query, bind_ok}
use lac.Base.Result.{Tx, Result, ok, err, not_found, ◌>>=◌, ◌>>◌, return, for_each, run_tx}
use lac.Core.Time.{Time}
use lac.Core.Lease.{Lease, QueueEntry, cancelled, is_waiting}
use lac.Core.Audit.{lease_expired, lease_released, queue_cancelled, system_actor}
use lac.Store.{Db, LeaseRow, QueueRow, ResourceRow, scan_resource, scan_lease, scan_queue_entry}
use lac.Store.Resources
use lac.Store.Queue
use lac.Store.Queue.{still_waiting, resolve_row, waiting_for, served_before, waiting_rows}
use lac.Store.Leases
use lac.Store.Leases.{expired_at, by_acquired, active_on, active_by, count_active}
use lac.Store.AuditLog
use lac.Store.Keys.{Keys, entries_of}
use lac.Leasing.State.{Service, run, and_then, signal, signal_all}
use lac.Leasing.Reclaim.{
  release_one, clear_one, cancel_one, reap_expired_tx, reap_expired, free_resource_tx,
  free_resource, clear_queue_tx, clear_queue, release_everything_tx, release_everything_held_by,
  signal_reaped, forced_from,
}
use lac.Leasing.Steps.{run_ok, run_err, db-signal, db-signal_all, db-signal_reaped}
use lac.Leasing.Drained.{release_loop}
use lac.Leasing.Cleared.{Cancels, cancel_loop}

module _ {A : Type 0} (m : Tx Db A) (s : Service) where
  -- What an action that only wakes waiters does when its transaction succeeds.
  pub done_then :
      (wake : A → Service → Service) (a : A) (t : Db)
      → ((u : Service) → (wake a u).db ≡ u.db)
      → m s.db ≡ ok (a, t)
      → let r = and_then (run m s) (λ x s'. (ok x, wake x s')) in (r.0 ≡ ok a) × (r.1.db ≡ t)
  done_then wake a t quiet h = rw (run_ok m s t a h) (refl, quiet (record s { db = t }))

reap_tx-total :
    (format_time : Time → String) (now : Time) (s : Db)
    → (t : Db) × (reap_expired_tx format_time now s ≡ ok (count_where (expired_at now) s.leases, t))
      × (exists (expired_at now) t.leases ≡ false)
unfolding reap_expired_tx Leases.expired_leases expired_at run_tx
reap_tx-total format_time now s =
    let (t, done, vacant, _) =
      release_loop (expired_at now) (λ l h. ground arith) system_actor refl lease_expired
        (λ lease. lease.resource_name)
        (λ lease.
          "lease "
          ^^ lease.id
          ^^ " held by "
          ^^ lease.agent_id
          ^^ " expired at "
          ^^ format_time lease.expires_at)
        now (λ a b. ltb a.expires_at b.expires_at) s in
    (
      t,
      rw
          (← length-query scan_lease (λ a b. ltb a.expires_at b.expires_at) (expired_at now)
            s.leases)
          done,
      vacant,
    )

-- Reaping always succeeds. It reports how many leases had run out unreleased, and leaves none of
-- them: no unreleased lease in the table has expired at the time of the call.
pub reaping_leaves_no_expired_lease :
    (format_time : Time → String) (now : Time) (s : Service)
    → ((reap_expired format_time now s).0 ≡ ok (count_where (expired_at now) s.db.leases))
      × (exists (expired_at now) (reap_expired format_time now s).1.db.leases ≡ false)
unfolding reap_expired
reaping_leaves_no_expired_lease format_time now s =
    let (t, done, vacant) = reap_tx-total format_time now s.db in
    let (result, after) =
      done_then (reap_expired_tx format_time now) s signal_reaped _ t (db-signal_reaped _) done in
    (result, rw after vacant)

pub by_name_found :
    (name : String) (s : Db) (r : ResourceRow)
    → find (λ r'. r'.name == name) s.resources ≡ some r
    → Resources.by_name name s ≡ ok (scan_resource r, s)
unfolding Resources.by_name run_tx
by_name_found name s r h = ground arith

free_tx-total :
    (actor name : String) (now : Time) (s : Db) (r : ResourceRow)
    → (actor == "") ≡ false
    → find (λ r'. r'.name == name) s.resources ≡ some r
    → (t : Db) × (free_resource_tx actor name now s ≡ ok (count_active name now s, t))
      × (exists (active_on name now) t.leases ≡ false)
unfolding free_resource_tx Leases.active_leases active_on count_active run_tx
free_tx-total actor name now s r named found =
    let (t, done, vacant, _) =
      release_loop (active_on name now) (λ l h. ground arith) actor named lease_released (λ _. name)
        forced_from now by_acquired s in
    (
      t,
      bind_ok (Resources.by_name name) _ s s (scan_resource r) (by_name_found name s r found)
          ∙ rw (← length-query scan_lease by_acquired (active_on name now) s.leases) done,
      vacant,
    )

-- An administrator who frees a defined resource succeeds, whoever holds it: the answer is the number
-- of leases that were active on it, and none is active on it afterwards.
pub freed_resource_is_vacant :
    (actor name : String) (now : Time) (s : Service) (r : ResourceRow)
    → (actor == "") ≡ false
    → find (λ r'. r'.name == name) s.db.resources ≡ some r
    → ((free_resource actor name now s).0 ≡ ok (count_active name now s.db))
      × (count_active name now (free_resource actor name now s).1.db ≡ 0)
unfolding free_resource count_active
freed_resource_is_vacant actor name now s r named found =
    let (t, done, vacant) = free_tx-total actor name now s.db r named found in
    let (result, after) =
      done_then (free_resource_tx actor name now) s (λ _. signal name) _ t (λ u. db-signal name u)
        done in
    (result, rw after (count_where-none (active_on name now) t.leases vacant))
