-- ===== src/Api/Reports.antt =====
-- internal/api/reports.go: asking every agent what it is doing.
use lac.Base.{ℕ, String, ◌==◌, Bool, List, map, length, if◌then◌else◌}
use lac.Base.Result.{Result, ok, err, invalid_argument}
use lac.Core.Time.{Time, Duration}
use lac.Core.Agent.{Agent}
use lac.Core.Report.{Report, ReportRequest, ReportCollection}
use lac.Store.{Db}
use lac.Store.Messages.{is_empty}
use lac.Reporting.State.{Outside, Service}
use lac.Reporting.Asking
use lac.Reporting.Collecting
use lac.Reporting.Collecting.{Round, Outcome, collected, waiting}
use lac.Auth.Authenticator.{request_reports}
use lac.Api.State.{Api, Texts, Action, on_reporting, reporting_of, permit, name_of, parse_duration}

pub record ReportView : Type 0 where
  pub agent_id : String
  pub agent_name : String
  pub body : String
  pub created_at : String

pub record ReportCollectionResult : Type 0 where
  pub request_id : String
  pub question : String
  pub asked : ℕ
  pub reports : List ReportView
  pub silent : List String
  pub complete : Bool

-- The loop of `viewOfCollection` over the answers.
unfoldable pub view_of_report : Texts → Db → Report → ReportView
unfolding name_of
view_of_report texts db report = record {
  agent_id = report.agent_id;
  agent_name = name_of report.agent_id db;
  body = report.body;
  created_at = texts.format_time report.created_at;
}

abbrev name_or_id : String → String → String
name_or_id agent_id name = if name == "" then agent_id else name

-- The loop of `viewOfCollection` over the silent agents.
unfoldable pub silent_name : Db → String → String
unfolding name_of
silent_name db agent_id = name_or_id agent_id (name_of agent_id db)

-- `viewOfCollection`.
unfoldable pub view_of_collection : Texts → Db → ReportCollection → ReportCollectionResult
unfolding view_of_report silent_name
view_of_collection texts db c = record {
  request_id = c.request.id;
  question = c.request.question;
  asked = length c.request.asked_agent_ids;
  reports = map (view_of_report texts db) c.reports;
  silent = map (silent_name db) c.silent_agent_ids;
  complete = is_empty (map (silent_name db) c.silent_agent_ids);
}

-- What a method answers: a collection may still be going on when the rounds end.
pub data Answer : Type 0 where
  answered : Result ReportCollectionResult → Answer
  collecting : Answer

abbrev viewed : Texts → Result ReportCollection × Api → Answer × Api
unfolding view_of_collection
viewed texts (ok c, a) = (answered (ok (view_of_collection texts a.db c)), a)
viewed texts (err e, a) = (answered (err e), a)

abbrev came_to : Texts → Api → Outcome × Service → Answer × Api
unfolding viewed
came_to texts a (collected r, s) = viewed texts (r, record a { db = s.post.db; reporting = s })
came_to texts a (waiting, s) = (collecting, record a { db = s.post.db; reporting = s })

-- `Snapshot`, or `Collect` for a caller that waits.
unfoldable pub collect_or_look : Texts → Bool → String → List Round → Api → Answer × Api
unfolding on_reporting viewed came_to Collecting.collect Collecting.look
collect_or_look texts wait request_id rounds a =
    if wait
    then came_to texts a (Collecting.collect request_id rounds (reporting_of a))
    else viewed texts (on_reporting (Collecting.look request_id) a)

abbrev then_collect : {A : Type 0} → Result A × Api → (A → Api → Answer × Api) → Answer × Api
then_collect (ok x, a) f = f x a
then_collect (err e, a) f = (answered (err e), a)

pub record ReportRequestParams : Type 0 where
  pub question : String
  pub deadline : String
  pub wait : Bool

-- `handleReportRequest`.
unfoldable pub handle_report_request :
    Outside → Texts → ReportRequestParams → Time → List Round → Agent → Api → Answer × Api
unfolding permit parse_duration on_reporting Asking.request collect_or_look
handle_report_request o texts arguments now rounds caller a =
    then_collect (permit caller request_reports "" now a) λ _ a1.
      then_collect (parse_duration texts arguments.deadline, a1)
        λ (deadline : Duration) a2.
          then_collect
            (on_reporting (Asking.request o caller.id arguments.question deadline now) a2)
            λ (request : ReportRequest) a3.
              collect_or_look texts arguments.wait request.id rounds a3

-- `handleReportSubmit`.
unfoldable pub handle_report_submit : String → String → Time → Agent → Action (Unit {0})
unfolding on_reporting Asking.submit
handle_report_submit request_id body now caller a =
    if request_id == ""
    then (err invalid_argument, a)
    else on_reporting (Asking.submit request_id caller.id body now) a

-- `handleReportCollect`.
unfoldable pub handle_report_collect :
    Texts → String → Bool → List Round → Agent → Api → Answer × Api
unfolding collect_or_look
handle_report_collect texts request_id wait rounds caller a =
    if request_id == ""
    then (answered (err invalid_argument), a)
    else collect_or_look texts wait request_id rounds a
