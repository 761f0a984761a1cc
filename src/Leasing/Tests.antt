-- ===== src/Leasing/Tests.antt =====
-- The leasing service's theorems at a small example.
use lac.Base.{
  ◌≤◌, ◌<◌, ◌==◌, some, List, [], ◌∷◌, ◌≡◌, refl, arith, find, exists, count_where, select,
  order_by, update_where,
}
use lac.Base.Result.{ok, run_tx}
use lac.Core.Time.{Time}
use lac.Core.Lease.{Lease}
use lac.Store.{Db, QueueRow, ResourceRow, scan_resource, scan_queue_entry}
use lac.Store.Resources
use lac.Store.Queue
use lac.Store.Queue.{waiting_rows, waiting_for, served_before, still_waiting}
use lac.Store.Leases
use lac.Store.Leases.{count_active, active_on, active_by, extend_row, expired_at}
use lac.Store.AuditLog
use lac.Store.Keys.{Keys}
use lac.Leasing.Example.{idle_db, busy_db, service, tests_row, tests_resource, bob_entry, second}
use lac.Leasing.Grant.{try_grant_tx, lease_for, grant, is_head}
use lac.Leasing.GrantCases.{granted_db}
use lac.Leasing.Events.{Event, defines, attempts, reaps, replay}
use lac.Leasing.Capacity.History.{capacity_never_exceeded}
use lac.Leasing.Once.{request_is_granted_at_most_once}
use lac.Leasing.Fairness.{IsNext, only_the_head_is_granted}

-- The resource is defined again, bob tries, and the daemon reaps.
abbrev pub history : List (Time × Event)
history =
    (second, defines "alice" tests_resource)
    ∷ (second, attempts bob_entry [] "l2")
    ∷ (second, reaps)
    ∷ []

capacity_never_exceeded_example :
    count_active "tests" second (replay (λ _. "") (λ _. "") history (service busy_db)).db ≤ 1
unfolding count_active count_where
capacity_never_exceeded_example =
    capacity_never_exceeded (λ _. "") (λ _. "") 1 "tests" second history (service busy_db) second
      (omega arith, (omega arith, (omega arith, tt))) ((λ _. refl), (tt, (tt, tt)))
      (record { limits = ((λ _. omega arith), tt); within = omega arith }) (omega arith)

idle-Keys : Keys "q2" idle_db
unfolding count_where still_waiting
idle-Keys = record { entry = omega arith; lease = omega arith; once = omega arith }

request_is_granted_at_most_once_example :
    Keys "q2" (replay (λ _. "") (λ _. "") history (service idle_db)).db
request_is_granted_at_most_once_example =
    request_is_granted_at_most_once (λ _. "") (λ _. "") history (service idle_db) "q2" idle-Keys

-- Bob's lease, and the database once he has it.
abbrev bob_lease : Lease
bob_lease = lease_for bob_entry (scan_resource tests_row) [] "l2" second

abbrev bob_db : Db
bob_db = granted_db bob_entry (scan_resource tests_row) bob_lease second idle_db

bob_is_granted : try_grant_tx bob_entry [] "l2" second idle_db ≡ ok (some bob_lease, bob_db)
unfolding run_tx try_grant_tx grant lease_for is_head Queue.queue_entry_by_id Queue.waiting
    Resources.by_name Leases.count_active_leases Leases.create_lease Queue.resolve_queue_entry
    AuditLog.append scan_resource scan_queue_entry find exists count_where select order_by
    update_where waiting_rows waiting_for served_before count_active active_on
bob_is_granted = refl

only_the_head_is_granted_example :
    ((q : QueueRow) × IsNext "tests" "q2" idle_db q)
    × ((r : ResourceRow) × (find (λ r'. r'.name == "tests") idle_db.resources ≡ some r)
        × (count_active "tests" second idle_db < r.capacity))
only_the_head_is_granted_example =
    only_the_head_is_granted bob_entry [] "l2" second idle_db bob_db bob_lease bob_is_granted
