-- ===== src/Leasing/AcquireTests.antt =====
-- Whole acquires, and the waiters, at a small example.
use lac.Base.{
  true, false, [], ◌∷◌, ◌≡◌, refl, find, exists, count_where, select, order_by, update_where,
}
use lac.Base.Result.{ok, err, run_tx, capacity_reached}
use lac.Core.Name.{validate_name}
use lac.Core.Lease.{Lease, validate}
use lac.Store.{Db, scan_resource, scan_queue_entry}
use lac.Store.Resources
use lac.Store.Queue
use lac.Store.Queue.{waiting_rows, waiting_for, served_before, still_waiting}
use lac.Store.Leases
use lac.Store.Leases.{count_active, active_on}
use lac.Store.AuditLog
use lac.Leasing.Example.{idle_db, busy_db, service, tests_row, second, request, quiet_round}
use lac.Leasing.Waiters
use lac.Leasing.Waiters.{new_waiters}
use lac.Leasing.State
use lac.Leasing.State.{Service, run, audit}
use lac.Leasing.Grant.{try_grant, try_grant_tx, lease_for, grant, is_head, signal_grant}
use lac.Leasing.Acquire.{
  acquire, finished, Outcome, join, wait_for_slot, watch, after_attempt, await_slot, abandon,
  abandoned_state, clean_up, entry_for,
}
use lac.Leasing.Acquire.CleanUp.{queued, failed_acquire_leaves_the_queue}
use lac.Leasing.Acquire.Success.{HasLease, successful_acquire_holds_a_lease}
use lac.Leasing.Wakeups.{watches, signals, changes, is_closed, no_lost_wakeup}

-- Bob does not wait, and the slot is taken.
abbrev hasty : Outcome × Service
hasty =
    acquire (record request { no_wait = true }) "q9" second (quiet_round second "l9" ∷ []) second
      (service busy_db)

hasty_fails :
    acquire
      (record request { no_wait = true })
      "q9"
      second
      (quiet_round second "l9" ∷ [])
      second
      (service busy_db)
    ≡ (finished (err capacity_reached), hasty.1)
unfolding acquire join entry_for await_slot wait_for_slot after_attempt clean_up abandon
    abandoned_state watch audit try_grant signal_grant State.signal Waiters.watch Waiters.signal
    run_tx try_grant_tx grant lease_for is_head run Queue.enqueue Queue.queue_entry_by_id
    Queue.waiting Resources.by_name Leases.count_active_leases Leases.create_lease
    Queue.resolve_queue_entry AuditLog.append scan_resource scan_queue_entry find exists count_where
    select order_by update_where waiting_rows waiting_for served_before count_active active_on
    validate validate_name
hasty_fails = refl

failed_acquire_leaves_the_queue_example : queued "q9" hasty.1 ≡ false
unfolding exists still_waiting
failed_acquire_leaves_the_queue_example =
    failed_acquire_leaves_the_queue (record request { no_wait = true }) "q9" second
      (quiet_round second "l9" ∷ []) second (service busy_db) hasty.1 capacity_reached refl
      hasty_fails

-- Nobody waits for the slot.
abbrev free_db : Db
free_db = record idle_db { queue_entries = [] }

-- Bob gets the slot at once.
abbrev served : Outcome × Service
served = acquire request "q9" second (quiet_round second "l9" ∷ []) second (service free_db)

abbrev served_lease : Lease
served_lease =
    lease_for (entry_for request (scan_resource tests_row) "q9" second) (scan_resource tests_row) []
      "l9" second

served_succeeds :
    acquire request "q9" second (quiet_round second "l9" ∷ []) second (service free_db)
    ≡ (finished (ok served_lease), served.1)
unfolding acquire join entry_for await_slot wait_for_slot after_attempt clean_up abandon
    abandoned_state watch audit try_grant signal_grant State.signal Waiters.watch Waiters.signal
    run_tx try_grant_tx grant lease_for is_head run Queue.enqueue Queue.queue_entry_by_id
    Queue.waiting Resources.by_name Leases.count_active_leases Leases.create_lease
    Queue.resolve_queue_entry AuditLog.append scan_resource scan_queue_entry find exists count_where
    select order_by update_where waiting_rows waiting_for served_before count_active active_on
    validate validate_name
served_succeeds = refl

successful_acquire_holds_a_lease_example : HasLease "bob" "q9" served_lease served.1
successful_acquire_holds_a_lease_example =
    successful_acquire_holds_a_lease request "q9" second (quiet_round second "l9" ∷ []) second
      (service free_db) served.1 served_lease served_succeeds

-- Another resource is signalled first, and then the one that the agent waits for.
no_lost_wakeup_example :
    let (channel, w) = Waiters.watch "tests" new_waiters in
    is_closed channel (changes (watches "lint" ∷ signals "lint" ∷ signals "tests" ∷ []) w) ≡ true
unfolding exists
no_lost_wakeup_example =
    no_lost_wakeup "tests" new_waiters (watches "lint" ∷ signals "lint" ∷ signals "tests" ∷ []) refl
