-- ===== src/Leasing/Steps.antt =====
-- Relations on the database carried from the transactions to the service's actions.
use lac.Base.{◌⊎◌, inl, inr, ℕ, zero, suc, ◌≡◌, refl, ap, String, Option, none, some, arith}
use lac.Base.Result.{Tx, Result, ok, err, Error}
use lac.Base.Ensures.{Ensures, IsPreorder}
use lac.Core.Time.{Time}
use lac.Core.Audit.{AuditAction, AuditEntry}
use lac.Store.{Db}
use lac.Store.AuditLog.{append}
use lac.Store.Transaction.{commit}
use lac.Core.Lease.{Lease}
use lac.Leasing.Grant.{signal_grant}
use lac.Leasing.Reclaim.{signal_reaped}
use lac.Leasing.State.{Service, Action, run, and_then, signal, signal_all, audit}

module _ {A : Type 0} {R : Db → Db → Type 0} where
  -- An error leaves the database as it was.
  pub run-rel : (m : Tx Db A) (s : Service) → IsPreorder R → Ensures R m → R s.db (run m s).1.db
  unfolding run
  run-rel m s p e = go (m s.db) refl
    where
      go : (r : Result (A × Db)) → m s.db ≡ r → R s.db (commit r s.db).1
      go (ok (a, t)) h = e.at s.db t a h
      go (err x) h = p.rel_refl s.db

module _ {A B : Type 0} {R : Db → Db → Type 0} where
  pub and_then-rel :
      (m : Tx Db A) (k : A → Action B) (s : Service)
      → IsPreorder R
      → Ensures R m
      → ((a : A) (t : Service) → R t.db (k a t).1.db)
      → R s.db (and_then (run m s) k).1.db
  and_then-rel m k s p e h = go (run m s) (run-rel m s p e)
    where
      go : (r : Result A × Service) → R s.db r.1.db → R s.db (and_then r k).1.db
      go (ok a, t) d = p.rel_trans s.db t.db (k a t).1.db d (h a t)
      go (err x, t) d = d

-- An action that only wakes waiters once its transaction is done.
module _ {A B : Type 0} {R : Db → Db → Type 0} where
  pub quiet-rel :
      (m : Tx Db A) (k : A → Action B) (s : Service)
      → IsPreorder R
      → Ensures R m
      → ((a : A) (t : Service) → (k a t).1.db ≡ t.db)
      → R s.db (and_then (run m s) k).1.db
  quiet-rel m k s p e h = and_then-rel m k s p e (λ a t. rw (h a t) (p.rel_refl t.db))

pub db-signal : (n : String) (s : Service) → (signal n s).db ≡ s.db
unfolding signal
db-signal n s = refl

pub db-signal_all : (s : Service) → (signal_all s).db ≡ s.db
unfolding signal_all
db-signal_all s = refl

pub audit-rel :
    {R : Db → Db → Type 0} (actor : String) (action : AuditAction) (target detail : String)
    (now : Time) (s : Service)
    → IsPreorder R
    → ((e : AuditEntry) → Ensures R (append e))
    → R s.db (audit actor action target detail now s).db
unfolding audit
audit-rel actor action target detail now s p h = run-rel _ s p (h _)

pub db-signal_grant : (n : String) (l : Option Lease) (s : Service) → (signal_grant n l s).db ≡ s.db
unfolding signal_grant
db-signal_grant n none s = refl
db-signal_grant n (some l) s = db-signal n s

pub db-signal_reaped : (k : ℕ) (s : Service) → (signal_reaped k s).db ≡ s.db
unfolding signal_reaped
db-signal_reaped zero s = refl
db-signal_reaped (suc k) s = db-signal_all s

-- A transaction fails and changes nothing, or succeeds and changes the database alone.
pub run_cases :
    {A : Type 0} (m : Tx Db A) (s : Service)
    → ((e : Error) × (m s.db ≡ err e) × (run m s ≡ (err e, s)))
      ⊎ ((a : A) × (t : Db) × (m s.db ≡ ok (a, t)) × (run m s ≡ (ok a, record s { db = t })))
unfolding run
run_cases {A} m s = go (m s.db) refl
  where
    go :
        (r : Result (A × Db))
        → m s.db ≡ r
        → ((e : Error) × (m s.db ≡ err e) × (run m s ≡ (err e, s)))
          ⊎ ((a : A) × (t : Db) × (m s.db ≡ ok (a, t)) × (run m s ≡ (ok a, record s { db = t })))
    go (ok (a, t)) h = inr (a, t, h, ground arith)
    go (err e) h = inl (e, h, ground arith)

pub run_ok :
    {A : Type 0} (m : Tx Db A) (s : Service) (t : Db) (a : A)
    → m s.db ≡ ok (a, t)
    → run m s ≡ (ok a, record s { db = t })
unfolding run
run_ok m s t a h = ap (λ r. let (r', db) = commit r s.db in (r', record s { db = db })) h

pub run_err :
    {A : Type 0} (m : Tx Db A) (s : Service) (e : Error) → m s.db ≡ err e → run m s ≡ (err e, s)
unfolding run
run_err m s e h = ap (λ r. let (r', db) = commit r s.db in (r', record s { db = db })) h
