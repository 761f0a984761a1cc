-- ===== src/Store/AuditLog.antt =====
-- store/sqlite/audit.go: appending to the audit log.
use lac.Base.{◌==◌, not, [], ◌∷◌, ◌++◌}
use lac.Base.Result.{Tx, ◌>>◌, require, exec, invalid_argument}
use lac.Core.Time.{require_micros}
use lac.Core.Audit.{AuditEntry}
use lac.Store.{Db, AuditRow}

unfoldable pub row_of : AuditEntry → AuditRow
unfolding require_micros
row_of e = record {
  actor = e.actor;
  action = e.action;
  target = e.target;
  detail = e.detail;
  at = require_micros e.at;
}

-- `Append`. Every value of `AuditAction` is a text that is not empty.
unfoldable pub append : AuditEntry → Tx Db (Unit {0})
unfolding row_of
append entry = do
  require (not (entry.actor == "")) invalid_argument
  exec (λ db. record db { audit_log = db.audit_log ++ row_of entry ∷ [] })
