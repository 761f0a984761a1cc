-- ===== src/Leasing/OperationTests.antt =====
-- The other operations at a small example, and what histories keep of it.
use lac.Base.{
  ◌+◌, ◌*◌, ◌≤◌, String, ◌==◌, true, false, some, List, [], ◌∷◌, ◌++◌, ◌≡◌, refl, arith, find,
  exists, count_where, if◌then◌else◌, Bool-cases, inl, inr, eq_iff,
}
use lac.Base.Result.{ok, err, unauthorised, conflict}
use lac.Core.Lease.{active}
use lac.Store.{Db, LeaseRow, AuditRow, scan_lease}
use lac.Store.Leases.{count_active, active_on, active_by, extend_row}
use lac.Store.Keys.{entries_of}
use lac.Leasing.Example.{
  idle_db, busy_db, service, tests_row, second, alice_row, gone_row, lease_row,
}
use lac.Leasing.Tests.{history}
use lac.Leasing.Holding.{renew, release, force_release, cancel}
use lac.Leasing.Reclaim.{release_everything_held_by}
use lac.Leasing.Events.{replay}
use lac.Leasing.Finality.{resolved_entry_is_final, released_lease_is_final, audit_log_append_only}
use lac.Leasing.Vacancy.Queues.{waits_as, departed_agent_holds_nothing}
use lac.Leasing.Holders.{strangers_are_refused, renewal_needs_a_live_lease}
use lac.Leasing.HandBack.{release_gives_the_slot_back}

distinct : (id : String) → entries_of id busy_db ≤ 1
unfolding count_where
distinct id = elim (Bool-cases ("q0" == id)) [
  | inl e ↦ rw (← (eq_iff "q0" id).0 e) (omega arith)
  | inr e ↦ elim (Bool-cases ("q1" == id)) [
    | inl f ↦ rw (← (eq_iff "q1" id).0 f) (omega arith)
    | inr f ↦ ground arith
  ]
]

departed_agent_holds_nothing_example :
    let r = release_everything_held_by "daemon" "alice" "went stale" second (service busy_db) in
    (r.0 ≡ ok (count_where (active_by "alice" second) busy_db.leases))
    × (exists (active_by "alice" second) r.1.db.leases ≡ false)
    × (exists (waits_as "alice") r.1.db.queue_entries ≡ false)
departed_agent_holds_nothing_example =
    departed_agent_holds_nothing "daemon" "alice" "went stale" second (service busy_db) refl
      distinct

strangers_are_refused_example :
    (renew "bob" "l1" second (service busy_db) ≡ (err unauthorised, service busy_db))
    × (release "bob" "l1" second (service busy_db) ≡ (err unauthorised, service busy_db))
    × (cancel "bob" "q1" second (service busy_db) ≡ (err unauthorised, service busy_db))
unfolding find
strangers_are_refused_example =
    strangers_are_refused "bob" "l1" "q1" second (service busy_db) lease_row alice_row refl refl
      refl refl

renewal_needs_a_live_lease_example :
    let live = active (scan_lease lease_row) second in
    ((renew "alice" "l1" second (service busy_db)).0 ≡ (
      if live
      then ok (record (scan_lease lease_row) { expires_at = second + 60000000 * 1000 })
      else err conflict))
    × (find (λ l'. l'.id == "l1") (renew "alice" "l1" second (service busy_db)).1.db.leases
        ≡ some (if live then extend_row (second + 60000000 * 1000) lease_row else lease_row))
unfolding find count_where
renewal_needs_a_live_lease_example =
    renewal_needs_a_live_lease "alice" "l1" second (service busy_db) lease_row tests_row refl refl
      (omega arith) refl refl

release_gives_the_slot_back_example :
    let r = force_release "root" "l1" second (service busy_db) in
    (r.0 ≡ ok tt)
    × (count_active "tests" second busy_db
        ≡ count_active "tests" second r.1.db
          + (if active_on "tests" second lease_row then 1 else 0))
unfolding find count_where
release_gives_the_slot_back_example =
    release_gives_the_slot_back "root" "l1" true second (service busy_db) lease_row "tests" refl
      (omega arith) refl refl

resolved_entry_is_final_example :
    find (λ q. q.id == "q0") (replay (λ _. "") (λ _. "") history (service busy_db)).db.queue_entries
    ≡ some gone_row
unfolding find
resolved_entry_is_final_example =
    resolved_entry_is_final (λ _. "") (λ _. "") history (service busy_db) "q0" gone_row refl refl

-- A lease that was released, and the database that has it.
abbrev returned_row : LeaseRow
returned_row = record lease_row { released_at = some 1 }

abbrev returned_db : Db
returned_db = record idle_db { leases = returned_row ∷ [] }

released_lease_is_final_example :
    find (λ l. l.id == "l1") (replay (λ _. "") (λ _. "") history (service returned_db)).db.leases
    ≡ some returned_row
unfolding find
released_lease_is_final_example =
    released_lease_is_final (λ _. "") (λ _. "") history (service returned_db) "l1" returned_row refl
      refl

audit_log_append_only_example :
    (more : List AuditRow) × ((replay (λ _. "") (λ _. "") history (service idle_db)).db.audit_log
      ≡ idle_db.audit_log ++ more)
audit_log_append_only_example = audit_log_append_only (λ _. "") (λ _. "") history (service idle_db)
