-- ===== src/Core/Audit.antt =====
-- internal/core/audit.go: the audit log's entries.
use lac.Base.{String}
use lac.Core.Time.{Time}

pub data AuditAction : Type 0 where
  agent_registered agent_deregistered agent_went_stale auth_denied message_sent : AuditAction
  resource_defined lease_granted lease_renewed lease_released lease_expired : AuditAction
  queue_joined queue_cancelled report_requested : AuditAction

pub record AuditEntry : Type 0 where
  pub actor : String
  pub action : AuditAction
  pub target : String
  pub detail : String
  pub at : Time

abbrev pub system_actor : String
system_actor = "system"
