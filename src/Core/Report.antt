-- ===== src/Core/Report.antt =====
-- internal/core/report.go: what the operator asks every agent, and the answers.
use lac.Base.{String, List}
use lac.Core.Time.{Time}

pub record ReportRequest : Type 0 where
  pub id : String
  pub requester_id : String
  pub question : String
  pub asked_agent_ids : List String
  pub created_at : Time
  pub deadline : Time

pub record Report : Type 0 where
  pub request_id : String
  pub agent_id : String
  pub body : String
  pub created_at : Time

pub record ReportCollection : Type 0 where
  pub request : ReportRequest
  pub reports : List Report
  pub silent_agent_ids : List String
