-- ===== src/Store/Reports.antt =====
-- internal/store/sqlite/reports.go: the report repository.
use lac.Base.{
  String, ◌==◌, Bool, true, false, not, ◌&&◌, List, [], ◌∷◌, ◌++◌, map, find, exists, select,
  update_where, order_by, text_lt, ltb, if◌then◌else◌,
}
use lac.Base.Result.{
  Tx, ◌>>=◌, ◌>>◌, return, require, or_fail, query, exec, invalid_argument, not_found,
  already_exists,
}
use lac.Core.Time.{require_micros, from_required_micros}
use lac.Core.Report.{ReportRequest, Report}
use lac.Store.{Db, ReportRequestRow, ReportRow}

unfoldable pub request_row : ReportRequest → ReportRequestRow
unfolding require_micros
request_row r = record {
  id = r.id;
  requester_id = r.requester_id;
  question = r.question;
  asked_agent_ids = r.asked_agent_ids;
  created_at = require_micros r.created_at;
  deadline = require_micros r.deadline;
}

unfoldable pub scan_request : ReportRequestRow → ReportRequest
unfolding from_required_micros
scan_request row = record {
  id = row.id;
  requester_id = row.requester_id;
  question = row.question;
  asked_agent_ids = row.asked_agent_ids;
  created_at = from_required_micros row.created_at;
  deadline = from_required_micros row.deadline;
}

unfoldable pub scan_report : ReportRow → Report
unfolding from_required_micros
scan_report row = record {
  request_id = row.request_id;
  agent_id = row.agent_id;
  body = row.body;
  created_at = from_required_micros row.created_at;
}

-- `CreateRequest`. The last `require` line is the primary key.
unfoldable pub create_request : ReportRequest → Tx Db (Unit {0})
unfolding request_row
create_request request = do
  require (not (request.id == "")) invalid_argument
  require (not (request.requester_id == "")) invalid_argument
  taken ← query (λ db. exists (λ r. r.id == request.id) db.report_requests)
  require (not taken) already_exists
  exec (λ db. record db { report_requests = db.report_requests ++ request_row request ∷ [] })

-- `RequestByID`.
unfoldable pub request_by_id : String → Tx Db ReportRequest
unfolding scan_request
request_by_id request_id = do
  row ← query (λ db. find (λ r. r.id == request_id) db.report_requests)
  found ← or_fail row not_found
  return (scan_request found)

unfoldable pub answers : String → String → ReportRow → Bool
answers request_id agent_id r = r.request_id == request_id && r.agent_id == agent_id

unfoldable pub report_row : Report → ReportRow
unfolding require_micros
report_row r = record {
  request_id = r.request_id;
  agent_id = r.agent_id;
  body = r.body;
  created_at = require_micros r.created_at;
}

-- `ON CONFLICT (request_id, agent_id) DO UPDATE`: a later answer takes the place of an earlier one.
unfoldable pub upsert : ReportRow → List ReportRow → List ReportRow
unfolding answers
upsert row rows =
    if exists (answers row.request_id row.agent_id) rows
    then update_where (answers row.request_id row.agent_id)
        (λ old. record old { body = row.body; created_at = row.created_at }) rows
    else rows ++ row ∷ []

-- `AddReport`. The `require` line is the foreign key.
unfoldable pub add_report : Report → Tx Db (Unit {0})
unfolding report_row upsert
add_report report = do
  known ← query (λ db. exists (λ r. r.id == report.request_id) db.report_requests)
  require known invalid_argument
  exec (λ db. record db { reports = upsert (report_row report) db.reports })

-- `ORDER BY created_at, agent_id`.
unfoldable pub arrived_before : ReportRow → ReportRow → Bool
arrived_before a b =
    if ltb a.created_at b.created_at
    then true
    else if ltb b.created_at a.created_at
    then false
    else text_lt a.agent_id b.agent_id

-- The query of `ReportsFor`.
unfoldable pub reports_of : String → Db → List Report
unfolding scan_report arrived_before
reports_of request_id db =
    map scan_report (order_by arrived_before (select (λ r. r.request_id == request_id) db.reports))

-- `ReportsFor`.
unfoldable pub reports_for : String → Tx Db (List Report)
unfolding reports_of
reports_for request_id = query (reports_of request_id)
