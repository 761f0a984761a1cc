-- ===== src/Reporting/Tests.antt =====
-- The collection of reports at a small example: two agents are asked, and neither answers in time.
use lac.Base.{ℕ, false, List, [], ◌∷◌, pos, none}
use lac.Core.Time.{Time}
use lac.Core.Report.{ReportRequest}
use lac.Store.{ReportRequestRow}
use lac.Store.Reports
use lac.Leasing.Example.{idle_db}
use lac.Leasing.Waiters.{new_waiters}
use lac.Reporting.State.{Service}
use lac.Reporting.Collecting.{Round, ticked}

abbrev half_second : ℕ
half_second = 500000000

abbrev row : ReportRequestRow
row = record {
  id = "r1";
  requester_id = "operator";
  question = "what are you doing?";
  asked_agent_ids = "alice" ∷ "bob" ∷ [];
  created_at = 0;
  deadline = 500000;
}

abbrev asked : ReportRequest
asked = record {
  id = "r1";
  requester_id = "operator";
  question = "what are you doing?";
  asked_agent_ids = "alice" ∷ "bob" ∷ [];
  created_at = 0;
  deadline = half_second;
}

abbrev service : Service
service = record {
  post = record {
    db = record idle_db { report_requests = row ∷ [] };
    default_time_to_live = pos 0;
    retention = pos 0;
    notifier = none;
  };
  roster = record {
    time_to_live = pos 0;
    workdir_roots = [];
    capabilities_for = λ kind. record {
      resources = [];
      can_broadcast = false;
      can_define_resources = false;
      can_request_reports = false;
      can_read_log = false;
    };
  };
  arrivals = new_waiters;
  drawn = 0;
}

abbrev tick_at : Time → Round
tick_at now = record { before = λ s. s; now = now; asleep = λ s. s; wake = ticked }

abbrev rounds : List Round
rounds = tick_at 0 ∷ tick_at 250000000 ∷ tick_at half_second ∷ []
