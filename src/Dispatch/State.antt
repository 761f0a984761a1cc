-- ===== src/Dispatch/State.antt =====
-- internal/service/dispatch/dispatch.go: the catalogue, the service's state and its signals.
use lac.Base.{String, Bool, Option, none, some, List, [], ◌∷◌, ℤ, if◌then◌else◌}
use lac.Base.Result.{Tx, Result, ok, err, Error, context_done}
use lac.Core.Time.{Time}
use lac.Store.{Db}
use lac.Store.Transaction.{in_transaction}
use lac.Leasing.Waiters.{Waiters, new_waiters}
use lac.Leasing.Waiters

pub record Command : Type 0 where
  pub key : String
  pub resource : String
  pub run : List String
  pub description : String
  pub time_limit : ℤ

-- `Catalogue`: a key that is not in the configuration is `none`, for `ErrNotFound`.
pub record Catalogue : Type 0 where
  pub command : String → Option Command
  pub commands : List Command

-- `signals` is the broadcast that leases have, with a key in the place of the resource.
abbrev pub Signals : Type 0
Signals = Waiters

abbrev pub new_signals : Signals
new_signals = new_waiters

pub record Service : Type 0 where
  pub db : Db
  pub catalogue : Catalogue
  pub workdir_roots : List String
  pub arrivals : Signals
  pub outcomes : Signals

unfoldable pub new : Db → Catalogue → List String → Service
new db catalogue roots = record {
  db = db;
  catalogue = catalogue;
  workdir_roots = roots;
  arrivals = new_signals;
  outcomes = new_signals;
}

abbrev pub Action : Type 0 → Type 0
Action A = Service → Result A × Service

unfoldable pub run : {A : Type 0} → Tx Db A → Action A
unfolding in_transaction
run fn s = let (r, db') = in_transaction fn s.db in (r, record s { db = db' })

abbrev pub and_then : {A B : Type 0} → Result A × Service → (A → Action B) → Result B × Service
and_then (ok a, s) f = f a s
and_then (err e, s) f = (err e, s)

-- `Commands`.
abbrev pub commands_of : Service → List Command
commands_of s = s.catalogue.commands

unfoldable pub watch_arrivals : String → Service → Service
watch_arrivals key s = record s { arrivals = (Waiters.watch key s.arrivals).1 }

unfoldable pub signal_arrival : String → Service → Service
signal_arrival key s = record s { arrivals = Waiters.signal key s.arrivals }

unfoldable pub watch_outcomes : String → Service → Service
watch_outcomes key s = record s { outcomes = (Waiters.watch key s.outcomes).1 }

unfoldable pub signal_outcome : String → Service → Service
signal_outcome key s = record s { outcomes = Waiters.signal key s.outcomes }

-- A round of one of the service's wait loops: what the others do before the look and during the
-- sleep, and whether the caller's context ended the sleep. The timer and the signal only wake.
pub record Round : Type 0 where
  pub before : Service → Service
  pub now : Time
  pub asleep : Service → Service
  pub given_up : Bool

-- What became of a call that waits: it returned, or it sleeps when the rounds end.
pub data Outcome (A : Type 0) : Type 0 where
  finished : Result A → Outcome A
  sleeping : Outcome A

unfoldable pub after_look :
    {A : Type 0}
    → Option Error
    → Round
    → (Service → Outcome A × Service)
    → Result (Option A) × Service
    → Outcome A × Service
after_look at_once r rest (err e, s) = (finished (err e), s)
after_look at_once r rest (ok (some a), s) = (finished (ok a), s)
after_look none r rest (ok none, s) =
    if r.given_up then (finished (err context_done), r.asleep s) else rest (r.asleep s)
after_look (some e) r rest (ok none, s) = (finished (err e), s)

-- The loop of `WaitForWork`, `Claim` and `Await`: watch, look, and sleep. With an error in
-- `at_once`, a look that finds nothing ends the call with it.
unfoldable pub wait_loop :
    {A : Type 0}
    → (Service → Service)
    → (Time → Action (Option A))
    → Option Error
    → List Round
    → Service
    → Outcome A × Service
unfolding after_look
wait_loop watch look at_once [] s = (sleeping, s)
wait_loop watch look at_once (r ∷ rounds) s =
    after_look at_once r (λ s'. wait_loop watch look at_once rounds s')
      (look r.now (r.before (watch s)))
