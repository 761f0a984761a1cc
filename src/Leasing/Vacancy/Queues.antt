-- ===== src/Leasing/Vacancy/Queues.antt =====
-- What is left when a queue is cleared, and when an agent departs.
use lac.Base.{
  ◌≤◌, String, ◌==◌, Bool, false, some, List, [], ◌∷◌, ◌++◌, ◌^^◌, ◌≡◌, refl, ap, ◌∙◌, ◌&&◌,
  update_where, map, arith, exists, find, select, order_by, count_where, length, ltb,
}
use lac.Base.Loops.{length-query, bind_ok}
use lac.Base.Result.{ok, ◌>>=◌, ◌>>◌, return, for_each, run_tx}
use lac.Core.Time.{Time}
use lac.Core.Lease.{Lease, QueueEntry, cancelled, is_waiting}
use lac.Core.Audit.{lease_released, queue_cancelled}
use lac.Store.{Db, QueueRow, ResourceRow, scan_resource, scan_lease, scan_queue_entry}
use lac.Store.Resources
use lac.Store.Queue
use lac.Store.Queue.{still_waiting, resolve_row, waiting_for, served_before, waiting_rows}
use lac.Store.Leases
use lac.Store.Leases.{expired_at, by_acquired, active_on, active_by, count_active}
use lac.Store.AuditLog
use lac.Store.Keys.{entries_of}
use lac.Leasing.State.{Service, signal, signal_all}
use lac.Leasing.Reclaim.{
  release_one, clear_one, cancel_one, clear_queue_tx, clear_queue, release_everything_tx,
  release_everything_held_by,
}
use lac.Leasing.Steps.{db-signal, db-signal_all}
use lac.Leasing.Vacancy.{done_then, by_name_found}
use lac.Leasing.Drained.{release_loop}
use lac.Leasing.Cleared.{Cancels, cancel_loop}

-- A round of `ClearQueue`.
clears :
    (actor name : String) (now : Time)
    → (actor == "") ≡ false
    → Cancels now (clear_one actor name now)
unfolding clear_one run_tx Queue.resolve_queue_entry AuditLog.append
clears actor name now named = record {
  result = λ x s. record s {
    queue_entries = update_where (still_waiting x.id) (resolve_row cancelled now) s.queue_entries;
    audit_log =
        s.audit_log
        ++ AuditLog.row_of (record {
          actor = actor;
          action = queue_cancelled;
          target = name;
          detail = "entry " ^^ x.id ^^ " force-cancelled for " ^^ x.agent_id;
          at = now;
        })
          ∷ [];
  };
  succeeds = λ x s h. ground arith;
  entries = λ x s. refl;
  leases = λ x s. refl;
}

clear_tx-total :
    (actor name : String) (now : Time) (s : Db) (r : ResourceRow)
    → (actor == "") ≡ false
    → find (λ r'. r'.name == name) s.resources ≡ some r
    → ((id : String) → entries_of id s ≤ 1)
    → (t : Db) × (clear_queue_tx actor name now s
        ≡ ok (count_where (waiting_for name) s.queue_entries, t))
      × (exists (waiting_for name) t.queue_entries ≡ false)
      × (t.leases ≡ s.leases)
unfolding clear_queue_tx Queue.waiting waiting_for waiting_rows run_tx
clear_tx-total actor name now s r named found unique =
    let (t, done, vacant, same) =
      cancel_loop (waiting_for name) (λ q h. ground arith) now (clear_one actor name now)
        (clears actor name now named) served_before s unique in
    (
      t,
      bind_ok (Resources.by_name name) _ s s (scan_resource r) (by_name_found name s r found)
          ∙ rw (← length-query scan_queue_entry served_before (waiting_for name) s.queue_entries)
              done,
      vacant,
      same,
    )

-- An administrator who clears the queue of a defined resource succeeds: the answer is the number of
-- requests that waited for it, none waits for it afterwards, and the leases stay as they are. The
-- queue entries have distinct identifiers.
pub cleared_queue_is_empty :
    (actor name : String) (now : Time) (s : Service) (r : ResourceRow)
    → (actor == "") ≡ false
    → find (λ r'. r'.name == name) s.db.resources ≡ some r
    → ((id : String) → entries_of id s.db ≤ 1)
    → ((clear_queue actor name now s).0 ≡ ok (count_where (waiting_for name) s.db.queue_entries))
      × (exists (waiting_for name) (clear_queue actor name now s).1.db.queue_entries ≡ false)
      × ((clear_queue actor name now s).1.db.leases ≡ s.db.leases)
unfolding clear_queue
cleared_queue_is_empty actor name now s r named found unique =
    let (t, done, vacant, same) = clear_tx-total actor name now s.db r named found unique in
    let (result, after) =
      done_then (clear_queue_tx actor name now) s (λ _. signal name) _ t (λ u. db-signal name u)
        done in
    (result, rw after vacant, rw after same)

leaves : (now : Time) → Cancels now (cancel_one now)
unfolding cancel_one run_tx Queue.resolve_queue_entry
leaves now = record {
  result = λ x s. record s {
    queue_entries = update_where (still_waiting x.id) (resolve_row cancelled now) s.queue_entries;
  };
  succeeds = λ x s h. ground arith;
  entries = λ x s. refl;
  leases = λ x s. refl;
}

abbrev pub waits_as : String → QueueRow → Bool
waits_as agent q = q.agent_id == agent && is_waiting q.state

release_everything_tx-total :
    (actor agent reason : String) (now : Time) (s : Db)
    → (actor == "") ≡ false
    → ((id : String) → entries_of id s ≤ 1)
    → (t : Db) × (release_everything_tx actor agent reason now s
        ≡ ok (count_where (active_by agent now) s.leases, t))
      × (exists (active_by agent now) t.leases ≡ false)
      × (exists (waits_as agent) t.queue_entries ≡ false)
unfolding release_everything_tx return Leases.active_leases_by_agent Queue.waiting_by_agent
    active_by run_tx
release_everything_tx-total actor agent reason now s named unique =
    let described : Lease → String = λ lease. "lease " ^^ lease.id ^^ " reclaimed: " ^^ reason in
    let (t, done, vacant, same) =
      release_loop (active_by agent now) (λ l h. ground arith) actor named lease_released
        (λ lease. lease.resource_name) described now by_acquired s in
    let (u, left, empty, same') =
      cancel_loop (waits_as agent) (λ q h. ground arith) now (cancel_one now) (leaves now)
        (λ a b. ltb a.requested_at b.requested_at) t (λ id. rw same (unique id)) in
    let held : List Lease =
      map scan_lease (order_by by_acquired (select (active_by agent now) s.leases)) in
    let entries : List QueueEntry = map scan_queue_entry (
      order_by (λ a b. ltb a.requested_at b.requested_at)
        (select (waits_as agent) t.queue_entries)) in
    (
      u,
      bind_ok
            (for_each
              (release_one actor lease_released (λ lease. lease.resource_name) described now) held)
            (λ released. Queue.waiting_by_agent agent >>= λ es.
              for_each (cancel_one now) es >> return released)
            s t (length held) done
          ∙ bind_ok (for_each (cancel_one now) entries) (λ _. return (length held)) t u
              (length entries) left
          ∙ ap (λ n. ok (n, u))
              (length-query scan_lease by_acquired (active_by agent now) s.leases),
      rw same' vacant,
      empty,
    )

-- When an agent departs, what it holds is reclaimed: the call succeeds and answers with the number of
-- its active leases; afterwards the agent has no active lease, and none of its requests waits in any
-- queue. The queue entries have distinct identifiers.
pub departed_agent_holds_nothing :
    (actor agent reason : String) (now : Time) (s : Service)
    → (actor == "") ≡ false
    → ((id : String) → entries_of id s.db ≤ 1)
    → let r = release_everything_held_by actor agent reason now s in
      (r.0 ≡ ok (count_where (active_by agent now) s.db.leases))
      × (exists (active_by agent now) r.1.db.leases ≡ false)
      × (exists (waits_as agent) r.1.db.queue_entries ≡ false)
unfolding release_everything_held_by
departed_agent_holds_nothing actor agent reason now s named unique =
    let (t, done, vacant, empty) =
      release_everything_tx-total actor agent reason now s.db named unique in
    let (result, after) =
      done_then (release_everything_tx actor agent reason now) s (λ _. signal_all) _ t db-signal_all
        done in
    (result, rw after vacant, rw after empty)
