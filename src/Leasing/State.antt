-- ===== src/Leasing/State.antt =====
-- service/leasing/leasing.go: the service's state, and the pieces that its operations share. The
-- clock and the fresh identifiers are arguments of each operation.
use lac.Base.{String, pos, ◌*◌, le_ℤ, if◌then◌else◌}
use lac.Base.Result.{Tx, Result, ok, err}
use lac.Core.Time.{Time, Duration}
use lac.Core.Audit.{AuditAction}
use lac.Store.{Db}
use lac.Store.AuditLog.{append}
use lac.Store.Transaction.{in_transaction}
use lac.Leasing.Waiters.{Waiters, new_waiters}
use lac.Leasing.Waiters

pub record Service : Type 0 where
  pub db : Db
  pub waiters : Waiters
  pub default_time_to_live : Duration

-- `New`: a default time to live that is not positive is 15 minutes.
unfoldable pub new : Db → Duration → Service
new db default = record {
  db = db;
  waiters = new_waiters;
  default_time_to_live =
      if le_ℤ default (pos 0) then pos (15 * 60 * 1000 * 1000 * 1000) else default;
}

-- What an operation returns, with the service that it leaves.
abbrev pub Action : Type 0 → Type 0
Action A = Service → Result A × Service

-- `s.store.InTransaction`, or one statement by itself.
unfoldable pub run : {A : Type 0} → Tx Db A → Action A
unfolding in_transaction
run fn s = let (r, db') = in_transaction fn s.db in (r, record s { db = db' })

-- Goes on with the result, or returns the error.
abbrev pub and_then : {A B : Type 0} → Result A × Service → (A → Action B) → Result B × Service
and_then (ok a, s) f = f a s
and_then (err e, s) f = (err e, s)

unfoldable pub signal : String → Service → Service
signal resource s = record s { waiters = Waiters.signal resource s.waiters }

unfoldable pub signal_all : Service → Service
signal_all s = record s { waiters = Waiters.signal_all s.waiters }

-- `audit`: an entry that cannot be written is only logged.
unfoldable pub audit : String → AuditAction → String → String → Time → Service → Service
unfolding run
audit actor action target detail now s =
    (run
      (append
        (record { actor = actor; action = action; target = target; detail = detail; at = now }))
      s).1
