-- ===== src/Api/Power.antt =====
-- internal/api: the operator's powers are for those who may define resources.
use lac.Base.{◌≡◌}
use lac.Base.Result.{Result, err, unauthorised}
use lac.Core.Time.{Time}
use lac.Core.Agent.{Agent}
use lac.Store.{Db}
use lac.Store.AuditLog
use lac.Auth.Authenticator.{Authenticator}
use lac.Api.State.{Api}

-- Nothing but the audit log is another one.
unfoldable pub OnlyAudited : Db → Db → Type 0
OnlyAudited s t = t ≡ record s { audit_log = t.audit_log }

-- The call was refused, and nothing but the audit log changed.
unfoldable pub IsRefused : {A : Type 0} → Api → Result A × Api → Type 0
IsRefused a r = (r.0 ≡ err unauthorised) × OnlyAudited a.db r.1.db
