-- ===== src/Dispatch/Steps.antt =====
-- What a transaction of the dispatch service does to the service.
use lac.Base.{
  Bool-cases, Option, none, some, List, [], ◌∷◌, ◌≡◌, refl, ap, ◌∙◌, String, ◌==◌, ◌⊎◌, inl, inr,
  arith,
}
use lac.Core.Time.{Time}
use lac.Base.Result.{
  Tx, Result, ok, err, Error, not_found, already_exists, invalid_argument, unauthorised,
  capacity_reached, conflict, context_done,
}
use lac.Base.Ensures.{Ensures, IsPreorder}
use lac.Store.{Db}
use lac.Store.Transaction.{commit}
use lac.Core.Task.{Task}
use lac.Dispatch.Work.{Claimed, settled}
use lac.Dispatch.Outcomes.{signal_requeued}
use lac.Dispatch.State.{
  and_then, signal_arrival, signal_outcome, Service, Action, Round, Outcome, finished, run,
  after_look, wait_loop,
}

-- A transaction fails and changes nothing, or succeeds and changes the database alone.
pub run_cases :
    {A : Type 0} (m : Tx Db A) (s : Service)
    → ((e : Error) × (m s.db ≡ err e) × (run m s ≡ (err e, s)))
      ⊎ ((a : A) × (t : Db) × (m s.db ≡ ok (a, t)) × (run m s ≡ (ok a, record s { db = t })))
unfolding run
run_cases {A} m s = go (m s.db) refl
  where
    go :
        (r : Result (A × Db))
        → m s.db ≡ r
        → ((e : Error) × (m s.db ≡ err e) × (run m s ≡ (err e, s)))
          ⊎ ((a : A) × (t : Db) × (m s.db ≡ ok (a, t)) × (run m s ≡ (ok a, record s { db = t })))
    go (ok (a, t)) h = inr (a, t, h, ground arith)
    go (err e) h = inl (e, h, ground arith)

pub run_ok :
    {A : Type 0} (m : Tx Db A) (s : Service) (t : Db) (a : A)
    → m s.db ≡ ok (a, t)
    → run m s ≡ (ok a, record s { db = t })
unfolding run
run_ok m s t a h = ap (λ r. let (r', db) = commit r s.db in (r', record s { db = db })) h

pub run_err :
    {A : Type 0} (m : Tx Db A) (s : Service) (e : Error) → m s.db ≡ err e → run m s ≡ (err e, s)
unfolding run
run_err m s e h = ap (λ r. let (r', db) = commit r s.db in (r', record s { db = db })) h

-- An error leaves the database as it was.
pub run-rel :
    {A : Type 0} {R : Db → Db → Type 0} (m : Tx Db A) (s : Service)
    → IsPreorder R
    → Ensures R m
    → R s.db (run m s).1.db
unfolding run
run-rel {A} {R} m s p e = go (m s.db) refl
  where
    go : (r : Result (A × Db)) → m s.db ≡ r → R s.db (commit r s.db).1
    go (ok (a, t)) h = e.at s.db t a h
    go (err x) h = p.rel_refl s.db

pub and_then-rel :
    {A B : Type 0} {R : Db → Db → Type 0} (m : Tx Db A) (k : A → Action B) (s : Service)
    → IsPreorder R
    → Ensures R m
    → ((a : A) (t : Service) → R t.db (k a t).1.db)
    → R s.db (and_then (run m s) k).1.db
and_then-rel {A} {B} {R} m k s p e h = go (run m s) (run-rel m s p e)
  where
    go : (r : Result A × Service) → R s.db r.1.db → R s.db (and_then r k).1.db
    go (ok a, t) d = p.rel_trans s.db t.db (k a t).1.db d (h a t)
    go (err x, t) d = d

pub db-signal_arrival : (n : String) (s : Service) → (signal_arrival n s).db ≡ s.db
unfolding signal_arrival
db-signal_arrival n s = refl

pub db-signal_outcome : (n : String) (s : Service) → (signal_outcome n s).db ≡ s.db
unfolding signal_outcome
db-signal_outcome n s = refl

pub db-signal_requeued : (ts : List Task) (s : Service) → (signal_requeued ts s).db ≡ s.db
unfolding signal_requeued
db-signal_requeued [] s = refl
db-signal_requeued (t ∷ ts) s =
    db-signal_requeued ts (signal_arrival t.resource_name s) ∙ db-signal_arrival t.resource_name s

pub db-settled : (r : Result (Option Claimed) × Service) → (settled r).1.db ≡ r.1.db
unfolding settled
db-settled (ok none, s) = refl
db-settled (ok (some c), s) = elim (Bool-cases (c.task.id == "")) [
  | inl e ↦ rw e refl
  | inr e ↦ rw e refl
]
db-settled (err not_found, s) = refl
db-settled (err already_exists, s) = refl
db-settled (err invalid_argument, s) = refl
db-settled (err unauthorised, s) = refl
db-settled (err capacity_reached, s) = refl
db-settled (err conflict, s) = refl
db-settled (err context_done, s) = refl

module _ {A : Type 0} (watch : Service → Service) (look : Time → Action (Option A))
    (at_once : Option Error) where
  looked :
      (quick : Option Error) (r : Round) (rest : Service → Outcome A × Service)
      (l : Result (Option A) × Service) (t : Service) (a : A)
      → ((u : Service)
          → rest u ≡ (finished (ok a), t)
          → (v : Service) × (now : Time) × (look now v ≡ (ok (some a), t)))
      → after_look quick r rest l ≡ (finished (ok a), t)
      → (l ≡ (ok (some a), t)) ⊎ ((v : Service) × (now : Time) × (look now v ≡ (ok (some a), t)))
  unfolding after_look
  looked quick r rest (err e, u) t a later h = absurd (ground arith)
  looked quick r rest (ok (some b), u) t a later h = inl (ground arith)
  looked (some e) r rest (ok none, u) t a later h = absurd (ground arith)
  looked none r rest (ok none, u) t a later h = elim (Bool-cases r.given_up) [
    | inl over ↦ absurd (ground arith)
    | inr on ↦ inr (later (r.asleep u) (rw on at h))
  ]

  -- A wait that returned a value has it from its last look.
  pub wait_loop-last_look :
      (rounds : List Round) (s t : Service) (a : A)
      → wait_loop watch look at_once rounds s ≡ (finished (ok a), t)
      → (v : Service) × (now : Time) × (look now v ≡ (ok (some a), t))
  unfolding wait_loop
  wait_loop-last_look [] s t a h = absurd (ground arith)
  wait_loop-last_look (r ∷ rounds) s t a h =
      elim (looked at_once r _ (look r.now (r.before (watch s))) t a
        (λ u k. wait_loop-last_look rounds u t a k) h) [
          | inl here ↦ (r.before (watch s), r.now, here)
          | inr later ↦ later
        ]
