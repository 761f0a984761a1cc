-- ===== src/Dispatch/Tests.antt =====
-- The dispatch service's theorems at a small example: bob's tasks for the test runner, and alice, who
-- works on them on her lease.
use lac.Base.{
  String, ◌==◌, true, false, Option, none, some, List, [], ◌∷◌, ◌≡◌, refl, pos, negsuc, find,
  exists, select, order_by, update_where,
}
use lac.Base.Result.{Result, ok, run_tx}
use lac.Core.Time.{Time}
use lac.Core.Name.{validate_name}
use lac.Core.Lease.{active}
use lac.Core.Task.{Task, queued, running, succeeded, cancelled, validate}
use lac.Store.{TaskRow, scan_task, scan_lease}
use lac.Store.Leases
use lac.Store.Tasks
use lac.Store.Tasks.{
  queued_rows, queued_for, submitted_before, finish_row, claim_row, claimable, known_agent,
  known_lease,
}
use lac.Leasing.Example.{busy_db, second}
use lac.Leasing.Waiters
use lac.Leasing.Waiters.{new_waiters}
use lac.Dispatch.Workdir.{
  clean, within, text_of, rel, rel_parts, elements, clean_elements, push_element, stays_below,
}
use lac.Dispatch.State.{
  Service, Catalogue, Command, Round, Outcome, run, wait_loop, after_look, watch_arrivals,
  signal_arrival, new,
}
use lac.Dispatch.Work.{
  SubmitRequest, Claimed, submit, submit_command, asked_workdir, allowed, resolve_workdir, task_for,
  started, take_on, try_claim_tx, try_claim, settled, verify_lease, claim, claim_verified,
}
use lac.Dispatch.Outcomes.{cancel}
use lac.Dispatch.Roots.{UnderRoot, submitted_work_stays_below_the_roots}
use lac.Dispatch.Lives.{Event, tries, ends, abandons, replay, finished_task_is_final}
use lac.Dispatch.Withdrawals.{cancellation_can_reach_a_running_task}

abbrev unit_tests : Command
unit_tests = record {
  key = "unit";
  resource = "tests";
  run = "go" ∷ "test" ∷ [];
  description = "";
  time_limit = pos 0;
}

-- One command, under every key.
abbrev catalogue : Catalogue
catalogue = record { command = λ key. some unit_tests; commands = unit_tests ∷ [] }

abbrev task_row : TaskRow
task_row = record {
  id = "t1";
  resource_name = "tests";
  command_key = "unit";
  workdir = "/work/b";
  requester_id = "bob";
  worker_id = none;
  lease_id = none;
  state = queued;
  exit_code = none;
  output = "";
  failure = "";
  submitted_at = 1;
  started_at = none;
  finished_at = none;
}

abbrev running_row : TaskRow
running_row = record task_row {
  state = running;
  worker_id = some "alice";
  lease_id = some "l1";
  started_at = some 2;
}

abbrev done_row : TaskRow
done_row = record running_row { state = succeeded; exit_code = some (pos 0); finished_at = some 3 }

abbrev with_task : TaskRow → Service
with_task row = new (record busy_db { tasks = row ∷ [] }) catalogue ("/work" ∷ [])

abbrev request : SubmitRequest
request = record { requester_id = "bob"; command_key = "unit"; workdir = "/work/./a/../b" }

abbrev submitted : Result Task × Service
submitted = submit request "t2" second (with_task task_row)

abbrev submitted_task : Task
submitted_task = task_for request unit_tests "/work/b" "t2" second

is_submitted : submit request "t2" second (with_task task_row) ≡ (ok submitted_task, submitted.1)
unfolding run_tx submit submit_command asked_workdir allowed resolve_workdir task_for clean within
    text_of rel rel_parts elements clean_elements push_element stays_below Tasks.create Tasks.claim
    Tasks.next_queued try_claim_tx try_claim settled take_on started verify_lease claim
    claim_verified wait_loop after_look watch_arrivals signal_arrival Waiters.watch Waiters.signal
    run new known_agent known_lease queued_rows queued_for submitted_before claimable claim_row
    Leases.lease_by_id active scan_task scan_lease find exists select order_by update_where validate
    validate_name
is_submitted = refl

submitted_work_stays_below_the_roots_example :
    (root : String) × (exists (λ x. x == root) ("/work" ∷ []) ≡ true) × UnderRoot root "/work/b"
unfolding new task_for
submitted_work_stays_below_the_roots_example =
    submitted_work_stays_below_the_roots request "t2" second (with_task task_row) submitted.1
      submitted_task "/work" [] refl is_submitted

abbrev alices_claim : Claimed
alices_claim = record {
  task = started (scan_task task_row) "alice" "l1" second;
  command = unit_tests;
}

abbrev tried : Result (Option Claimed) × Service
tried = try_claim "tests" "alice" "l1" second (with_task task_row)

abbrev looks : List Round
looks = record { before = λ s. s; now = second; asleep = λ s. s; given_up = false } ∷ []

abbrev claimed : Outcome Claimed × Service
claimed = claim "tests" "alice" "l1" true second looks (with_task task_row)

-- The worker is asked again, reports another outcome and goes away.
abbrev history : List (Time × Event)
history =
    (second, tries "tests" "alice" "l1")
    ∷ (second, ends "t1" (pos 1) "late")
    ∷ (second, abandons "alice")
    ∷ []

finished_task_is_final_example :
    find (λ t. t.id == "t1") (replay (λ _. "") history (with_task done_row)).db.tasks
    ≡ some done_row
unfolding find new
finished_task_is_final_example =
    finished_task_is_final (λ _. "") history (with_task done_row) "t1" done_row refl refl

-- Alice claims the task between bob's two statements.
cancellation_can_reach_a_running_task_example :
    (cancel (λ _. with_task running_row) "t1" "bob" second (with_task task_row)).0
    ≡ ok (
        scan_task (finish_row cancelled (negsuc 0) "withdrawn by the requester" second running_row))
unfolding find new
cancellation_can_reach_a_running_task_example =
    cancellation_can_reach_a_running_task (λ _. with_task running_row) "t1" "bob" second
      (with_task task_row) task_row running_row refl refl refl refl refl
