-- ===== src/Registry/State.antt =====
-- internal/service/registry/registry.go: the service's options and state. Issuing and revoking tokens
-- is the authenticator's, a parameter.
use lac.Base.{String, List, pos, ◌*◌, le_ℤ, if◌then◌else◌}
use lac.Base.Result.{Tx, Result, ok, err}
use lac.Core.Time.{Time, Duration}
use lac.Core.Agent.{Capabilities}
use lac.Core.Audit.{AuditAction}
use lac.Store.{Db}
use lac.Store.AuditLog.{append}
use lac.Store.Transaction.{in_transaction}

pub record Options : Type 0 where
  pub time_to_live : Duration
  pub workdir_roots : List String
  pub capabilities_for : String → Capabilities

pub record Service : Type 0 where
  pub db : Db
  pub options : Options

-- `New`: a time to live that is not positive is 90 seconds.
unfoldable pub new : Db → Options → Service
new db options = record {
  db = db;
  options = record options {
    time_to_live =
        if le_ℤ options.time_to_live (pos 0)
        then pos (90 * 1000 * 1000 * 1000)
        else options.time_to_live;
  };
}

abbrev pub Action : Type 0 → Type 0
Action A = Service → Result A × Service

unfoldable pub run : {A : Type 0} → Tx Db A → Action A
unfolding in_transaction
run fn s = let (r, db') = in_transaction fn s.db in (r, record s { db = db' })

abbrev pub and_then : {A B : Type 0} → Result A × Service → (A → Action B) → Result B × Service
and_then (ok a, s) f = f a s
and_then (err e, s) f = (err e, s)

-- `audit`: an entry that cannot be written is only logged.
unfoldable pub audit : String → AuditAction → String → String → Time → Service → Service
unfolding run
audit actor action target detail now s =
    (run
      (append
        (record { actor = actor; action = action; target = target; detail = detail; at = now }))
      s).1
