-- ===== src/Leasing/Capacity/History.antt =====
-- The capacity of a resource is never exceeded: the invariant under every history of events.
use lac.Base.{
  ℕ, ◌≤◌, String, ◌==◌, true, List, [], ◌∷◌, ◌≡◌, pos, le_ℤ, arith, eq_iff, All, All-update_where,
  All-append, exists, Bool-cases, inl, inr,
}
use lac.Base.Result.{Tx, exec}
use lac.Base.Ensures.{Ensures, IsPreorder, ensures_rules, Ensures-exec}
use lac.Core.Time.{Time}
use lac.Core.Resource.{Resource}
use lac.Store.{Db, ResourceRow}
use lac.Store.Resources
use lac.Store.Leases.{count_active}
use lac.Store.Slots.{
  Frees, append-Frees, resolve_queue_entry-Frees, enqueue-Frees, release-Frees, renew-Frees,
}
use lac.Leasing.State.{Service}
use lac.Leasing.Capacity.{Fits, Fits-later, Frees-Fits, try_grant-Fits}
use lac.Leasing.Transactions.{Statements}
use lac.Leasing.Events.{Event, defines, attempts, apply, replay, Forward, last_time}
use lac.Leasing.EventRelations.{Covers, apply-rel}

-- A definition of the resource `n` asks for at most `bound` slots.
abbrev pub IsLimited : ℕ → String → Event → Type 0
IsLimited bound n (defines actor r) = (r.name == n) ≡ true → le_ℤ r.capacity (pos bound) ≡ true
IsLimited bound n _ = Unit

module _ (bound : ℕ) (n : String) (now : Time) where
  KeepsFits : Db → Db → Type 0
  KeepsFits s t = Fits bound n now s → Fits bound n now t

  KeepsFits-IsPreorder : IsPreorder KeepsFits
  unfolding KeepsFits
  KeepsFits-IsPreorder = record { rel_refl = λ s h. h; rel_trans = λ s t u p q h. q (p h) }

  Ensures-Frees : {A : Type 0} {m : Tx Db A} → Ensures (Frees now) m → Ensures KeepsFits m
  unfolding KeepsFits
  Ensures-Frees e = record {
    at = λ s t a h. Frees-Fits bound n now now s t (omega arith) (e.at s t a h);
  }

  keeps_fits : Statements KeepsFits now
  keeps_fits = record {
    preorder = KeepsFits-IsPreorder;
    appends = λ e. Ensures-Frees (append-Frees now e);
    resolves = λ id state. Ensures-Frees (resolve_queue_entry-Frees now id state now);
    enqueues = λ e. Ensures-Frees (enqueue-Frees now e);
    releases = λ id. Ensures-Frees (release-Frees now id);
    renews = λ id until. Ensures-Frees (renew-Frees now id until);
  }

  abbrev IsLimitedRow : ResourceRow → Type 0
  IsLimitedRow r = (r.name == n) ≡ true → r.capacity ≤ bound

  limited-reconfigure :
      (row r : ResourceRow)
      → IsLimitedRow row
      → (r.name == row.name) ≡ true
      → IsLimitedRow (Resources.reconfigure row r)
  unfolding Resources.reconfigure
  limited-reconfigure row r h e k = h (rw (← (eq_iff r.name row.name).0 e) k)

  limited-upsert :
      (row : ResourceRow) (rows : List ResourceRow)
      → IsLimitedRow row
      → All IsLimitedRow rows
      → All IsLimitedRow (Resources.upsert row rows)
  unfolding Resources.upsert
  limited-upsert row rows h a = elim (Bool-cases (exists (λ r. r.name == row.name) rows)) [
    | inl known ↦ rw known (
        All-update_where IsLimitedRow (λ r. r.name == row.name) (Resources.reconfigure row) rows
          (λ r e _. limited-reconfigure row r h e) a)
    | inr fresh ↦ rw fresh (All-append IsLimitedRow rows (row ∷ []) a (h, tt))
  ]

  IsLimited-row_of :
      (r : Resource) (created : Time)
      → ((r.name == n) ≡ true → le_ℤ r.capacity (pos bound) ≡ true)
      → IsLimitedRow (Resources.row_of r created)
  unfolding Resources.row_of
  IsLimited-row_of r created h e = ground (arith, h e)

  upsert-KeepsFits :
      (r : Resource) (created : Time)
      → ((r.name == n) ≡ true → le_ℤ r.capacity (pos bound) ≡ true)
      → Ensures KeepsFits (
          exec (λ db. record db {
            resources = Resources.upsert (Resources.row_of r created) db.resources;
          }))
  unfolding KeepsFits count_active
  upsert-KeepsFits r created limit = Ensures-exec {R = KeepsFits} _ (λ s h. record {
    limits =
        limited-upsert (Resources.row_of r created) s.resources (IsLimited-row_of r created limit)
          h.limits;
    within = h.within;
  })

  define-KeepsFits :
      (r : Resource)
      → ((r.name == n) ≡ true → le_ℤ r.capacity (pos bound) ≡ true)
      → Ensures KeepsFits (Resources.define now r)
  unfolding Resources.define
  define-KeepsFits r limit =
      search (ensures_rules, KeepsFits-IsPreorder, upsert-KeepsFits r _ limit) depth 20

  Covers-KeepsFits : (e : Event) → IsLimited bound n e → Covers KeepsFits now e
  unfolding KeepsFits
  Covers-KeepsFits (defines actor r) h =
      λ r' same capacity. define-KeepsFits r' (λ e. rw capacity (h (rw same at e)))
  Covers-KeepsFits (attempts entry metadata id) h = record {
    at = λ s t a e. try_grant-Fits entry metadata id bound n now now s t a (omega arith) e;
  }
  Covers-KeepsFits _ h = tt

module _ (describe : Resource → String) (format_time : Time → String) (bound : ℕ) (n : String) where
  apply-Fits :
      (clock now : Time) (e : Event) (s : Service)
      → clock ≤ now
      → IsLimited bound n e
      → Fits bound n clock s.db
      → Fits bound n now (apply describe format_time now e s).db
  unfolding KeepsFits
  apply-Fits clock now e s le limit h =
      apply-rel describe format_time now (keeps_fits bound n now) e s
        (Covers-KeepsFits bound n now e limit) (Fits-later bound n clock now s.db le h)

  replay-Fits :
      (clock : Time) (events : List (Time × Event)) (s : Service)
      → Forward clock events
      → All (λ e. IsLimited bound n e.1) events
      → Fits bound n clock s.db
      → Fits bound n (last_time clock events) (replay describe format_time events s).db
  unfolding replay
  replay-Fits clock [] s f l h = h
  replay-Fits clock ((now, e) ∷ es) s f l h =
      replay-Fits now es (apply describe format_time now e s) f.1 l.1
        (apply-Fits clock now e s f.0 l.0 h)

  -- Over any history of the service in which the clock does not run backwards and every definition
  -- of the resource `n` asks for at most `bound` slots, from a service that has at most `bound`
  -- active leases on it, the number of active leases on `n` is at most `bound` at every time from the
  -- last event on.
  pub capacity_never_exceeded :
      (clock : Time) (events : List (Time × Event)) (s : Service) (at : Time)
      → Forward clock events
      → All (λ e. IsLimited bound n e.1) events
      → Fits bound n clock s.db
      → last_time clock events ≤ at
      → count_active n at (replay describe format_time events s).db ≤ bound
  capacity_never_exceeded clock events s at f l h le =
      (Fits-later bound n _ at _ le (replay-Fits clock events s f l h)).within
