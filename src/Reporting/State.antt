-- ===== src/Reporting/State.antt =====
-- internal/service/reporting/reporting.go: the service and its audit entries. The channels of the
-- arrivals are those of the waiters of the leasing service.
use lac.Base.{ℕ, String, Bool, List, ◌*◌}
use lac.Base.Result.{Tx, Result, ok, err}
use lac.Core.Time.{Time}
use lac.Core.Audit.{report_requested}
use lac.Core.Message.{Message}
use lac.Core.Report.{ReportRequest}
use lac.Store.{Db}
use lac.Store.AuditLog
use lac.Store.Transaction.{in_transaction}
use lac.Leasing.Waiters.{Waiters, new_waiters}
use lac.Leasing.Waiters
use lac.Messaging.Post
use lac.Registry.State.{Options}

-- What the service takes from outside: identifiers, the texts of JSON and of audit entries.
pub record Outside : Type 0 where
  pub fresh_id : ℕ → String
  pub json_valid : String → Bool
  pub detail : Message → List String → String
  pub encode : ReportRequest → String
  pub asked_text : ℕ → String → String

-- `post` is the messaging service with the database of all three; `roster` the options of the
-- registry; `drawn` counts the identifiers.
pub record Service : Type 0 where
  pub post : Post.Service
  pub roster : Options
  pub arrivals : Waiters
  pub drawn : ℕ

abbrev pub message_kind : String
message_kind = "report-request"

abbrev pub default_deadline : ℕ
default_deadline = 30 * 1000 * 1000 * 1000

-- A quarter of a second.
abbrev pub recheck_interval : ℕ
recheck_interval = 250 * 1000 * 1000

-- `New`.
unfoldable pub new : Post.Service → Options → Service
new post roster = record { post = post; roster = roster; arrivals = new_waiters; drawn = 0 }

abbrev pub Action : Type 0 → Type 0
Action A = Service → Result A × Service

abbrev pub with_db : Db → Service → Service
with_db db s = record s { post = record s.post { db = db } }

unfoldable pub run : {A : Type 0} → Tx Db A → Action A
unfolding in_transaction
run fn s = let (r, db') = in_transaction fn s.post.db in (r, with_db db' s)

abbrev pub and_then : {A B : Type 0} → Result A × Service → (A → Action B) → Result B × Service
and_then (ok a, s) f = f a s
and_then (err e, s) f = (err e, s)

-- `audit`: an entry that cannot be written is only logged.
unfoldable pub audit : String → String → String → Time → Service → Service
unfolding run
audit actor target detail now s =
    (run
      (AuditLog.append (record {
        actor = actor;
        action = report_requested;
        target = target;
        detail = detail;
        at = now;
      }))
      s).1

-- `arrivals.watch`, without its channel.
unfoldable pub watch : String → Service → Service
watch request_id s = record s { arrivals = (Waiters.watch request_id s.arrivals).1 }

-- `arrivals.signal`.
unfoldable pub signal : String → Service → Service
signal request_id s = record s { arrivals = Waiters.signal request_id s.arrivals }
