-- ===== src/Dispatch/Withdrawals.antt =====
-- Who may report on a task and withdraw it, and what a withdrawal reaches.
use lac.Base.{
  String, ◌==◌, true, some, List, [], ◌∷◌, ◌≡◌, ap, arith, exists-find, find-test, negsuc, find,
  exists, update_where, Bool-cases, inl, inr,
}
use lac.Base.Result.{Result, ok, run_tx}
use lac.Core.Time.{Time}
use lac.Core.Task.{Task, is_queued, is_running, cancelled}
use lac.Store.{Db, TaskRow, scan_task}
use lac.Store.Tasks
use lac.Store.Tasks.{unfinished, finish_row, is_worker}
use lac.Dispatch.State.{Service, signal_outcome}
use lac.Dispatch.Outcomes.{withdrawable, withdraw, cancel}
use lac.Dispatch.Steps.{run_ok}

find-finished :
    (id : String) (now : Time) (failure : String) (rows : List TaskRow) (r : TaskRow)
    → find (λ t. t.id == id) rows ≡ some r
    → is_running r.state ≡ true
    → find
        (λ t. t.id == id)
        (update_where (unfinished id) (finish_row cancelled (negsuc 0) failure now) rows)
      ≡ some (finish_row cancelled (negsuc 0) failure now r)
unfolding find update_where unfinished finish_row
find-finished id now failure [] r h k = absurd (ground arith)
find-finished id now failure (x ∷ rows) r h k = elim (Bool-cases (x.id == id)) [
  | inl e ↦ let same : x ≡ r = ground arith in rw (← same) (ground (arith, rw (← same) at k))
  | inr e ↦ ground (arith, find-finished id now failure rows r)
]

withdrawable-ok :
    (task_id requester_id : String) (s : Db) (r : TaskRow)
    → find (λ t. t.id == task_id) s.tasks ≡ some r
    → (r.requester_id == requester_id) ≡ true
    → is_queued r.state ≡ true
    → withdrawable task_id requester_id s ≡ ok (scan_task r, s)
unfolding withdrawable Tasks.by_id scan_task run_tx
withdrawable-ok task_id requester_id s r found own waits = ground arith

abbrev withdrawn_db : String → Time → Db → Db
withdrawn_db task_id now s = record s {
  tasks =
      update_where (unfinished task_id)
        (finish_row cancelled (negsuc 0) "withdrawn by the requester" now) s.tasks;
}

finish-ok :
    (task_id : String) (now : Time) (s : Db)
    → exists (unfinished task_id) s.tasks ≡ true
    → Tasks.finish task_id cancelled (negsuc 0) "withdrawn by the requester" now s
      ≡ ok (tt, withdrawn_db task_id now s)
unfolding Tasks.finish run_tx
finish-ok task_id now s h = ground arith

by_id-ok :
    (task_id : String) (s : Db) (r : TaskRow)
    → find (λ t. t.id == task_id) s.tasks ≡ some r
    → Tasks.by_id task_id s ≡ ok (scan_task r, s)
unfolding Tasks.by_id run_tx
by_id-ok task_id s r h = ground arith

unfinished-running :
    (id : String) (r : TaskRow)
    → (r.id == id) ≡ true
    → is_running r.state ≡ true
    → unfinished id r ≡ true
unfolding unfinished
unfinished-running id r h k = ground arith

withdraw-running :
    (task_id : String) (now : Time) (s : Service) (r : TaskRow)
    → find (λ t. t.id == task_id) s.db.tasks ≡ some r
    → is_running r.state ≡ true
    → (withdraw task_id now s).0
      ≡ ok (scan_task (finish_row cancelled (negsuc 0) "withdrawn by the requester" now r))
unfolding withdraw signal_outcome
withdraw-running task_id now s r found runs =
    let hit : exists (unfinished task_id) s.db.tasks ≡ true =
      exists-find (λ t. t.id == task_id) (unfinished task_id) s.db.tasks r found
        (unfinished-running task_id r (find-test (λ t. t.id == task_id) s.db.tasks found) runs) in
    let done = finish-ok task_id now s.db hit in
    let later = find-finished task_id now "withdrawn by the requester" s.db.tasks r found runs in
    let read = by_id-ok task_id (withdrawn_db task_id now s.db) _ later in
    let signalled : Service =
      signal_outcome task_id (record s { db = withdrawn_db task_id now s.db }) in
    rw (run_ok _ s _ _ done)
      (ap (λ (p : Result Task × Service). p.0) (run_ok (Tasks.by_id task_id) signalled _ _ read))

-- A cancellation is decided on what it read: if the requester's task was queued when `Cancel` looked
-- and a worker claimed it before the second statement, the running task is cancelled all the same.
pub cancellation_can_reach_a_running_task :
    (meanwhile : Service → Service) (task_id requester_id : String) (now : Time) (s : Service)
    (r r' : TaskRow)
    → find (λ t. t.id == task_id) s.db.tasks ≡ some r
    → (r.requester_id == requester_id) ≡ true
    → is_queued r.state ≡ true
    → find (λ t. t.id == task_id) (meanwhile s).db.tasks ≡ some r'
    → is_running r'.state ≡ true
    → (cancel meanwhile task_id requester_id now s).0
      ≡ ok (scan_task (finish_row cancelled (negsuc 0) "withdrawn by the requester" now r'))
unfolding cancel
cancellation_can_reach_a_running_task meanwhile task_id requester_id now s r r' found own waits
      found' runs =
    rw
      (run_ok (withdrawable task_id requester_id) s s.db (scan_task r)
        (withdrawable-ok task_id requester_id s.db r found own waits))
      (withdraw-running task_id now (meanwhile s) r' found' runs)
