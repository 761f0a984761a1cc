-- ===== src/Reporting/Collecting.antt =====
-- internal/service/reporting/reporting.go: `Collect` and `Snapshot`. What the others do is an
-- argument: each round of the loop has a function that they apply to the service between the look at
-- the channel and the snapshot, and one that they apply while the collector sleeps.
use lac.Base.{String, ◌==◌, Bool, not, List, [], ◌∷◌, select, exists, leb, if◌then◌else◌}
use lac.Base.Result.{Result, ok, err}
use lac.Core.Time.{Time}
use lac.Core.Report.{ReportRequest, Report, ReportCollection}
use lac.Store.Messages.{is_empty}
use lac.Store.Reports
use lac.Reporting.State.{Service, Action, run, and_then, watch}

-- Why the `select` of the loop returned: an answer, the timer, or the end of the context.
pub data Wake : Type 0 where
  arrived ticked cancelled : Wake

pub record Round : Type 0 where
  pub before : Service → Service
  pub now : Time
  pub asleep : Service → Service
  pub wake : Wake

pub data Outcome : Type 0 where
  collected : Result ReportCollection → Outcome
  waiting : Outcome

-- An agent is among those who answered.
abbrev pub has_answered : List Report → String → Bool
has_answered reports agent_id = exists (λ r. r.agent_id == agent_id) reports

unfoldable pub collection_of : ReportRequest → List Report → ReportCollection
collection_of request reports = record {
  request = request;
  reports = reports;
  silent_agent_ids = select (λ a. not (has_answered reports a)) request.asked_agent_ids;
}

-- `snapshot`.
unfoldable pub snapshot : ReportRequest → Action ReportCollection
unfolding run collection_of
snapshot request s =
    and_then (run (Reports.reports_for request.id) s)
      λ reports s1. (ok (collection_of request reports), s1)

-- What a round does after its snapshot: return, or sleep and go on with the rest of the rounds.
unfoldable pub after_snapshot :
    ReportRequest
    → Round
    → (Service → Outcome × Service)
    → Result ReportCollection × Service
    → Outcome × Service
after_snapshot request r rest (err e, s) = (collected (err e), s)
after_snapshot request r rest (ok c, s) =
    let more = rest (r.asleep s) in
    if is_empty c.silent_agent_ids
    then (collected (ok c), s)
    else if leb request.deadline r.now
    then (collected (ok c), s)
    else elim r.wake [ arrived ↦ more | ticked ↦ more | cancelled ↦ (collected (ok c), r.asleep s) ]

-- The loop of `Collect`.
unfoldable pub collect_rounds : ReportRequest → List Round → Service → Outcome × Service
unfolding watch snapshot after_snapshot
collect_rounds request [] s = (waiting, s)
collect_rounds request (r ∷ rounds) s =
    after_snapshot request r (λ s'. collect_rounds request rounds s')
      (snapshot request (r.before (watch request.id s)))

unfoldable pub collect_found : List Round → Result ReportRequest × Service → Outcome × Service
unfolding collect_rounds
collect_found rounds (err e, s) = (collected (err e), s)
collect_found rounds (ok request, s) = collect_rounds request rounds s

-- `Collect`.
unfoldable pub collect : String → List Round → Service → Outcome × Service
unfolding run collect_found
collect request_id rounds s = collect_found rounds (run (Reports.request_by_id request_id) s)

-- `Snapshot`.
unfoldable pub look : String → Action ReportCollection
unfolding run snapshot
look request_id s = and_then (run (Reports.request_by_id request_id) s) snapshot
