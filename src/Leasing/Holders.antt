-- ===== src/Leasing/Holders.antt =====
-- Who may renew and release a lease, or cancel a request, and what that does.
use lac.Base.{
  ◌+◌, ◌*◌, ◌≤◌, String, ◌==◌, Bool, true, false, some, List, [], ◌∷◌, ◌++◌, ◌^^◌, ◌≡◌, refl, ◌∙◌,
  arith, ◌&&◌, exists, find, count_where, update_where, if◌then◌else◌, Bool-cases, inl, inr,
}
use lac.Base.Result.{ok, err, unauthorised, conflict, run_tx}
use lac.Core.Time.{Time, ltb-require_micros}
use lac.Core.Lease.{active}
use lac.Store.{Db, LeaseRow, QueueRow, ResourceRow, scan_lease, scan_resource, scan_queue_entry}
use lac.Store.Resources
use lac.Store.Queue
use lac.Store.Leases
use lac.Store.Leases.{
  active_at, active_on, count_active, renewable, extend_row, unreleased, release_row,
}
use lac.Store.AuditLog
use lac.Store.Keys.{leases_with}
use lac.Core.Audit.{lease_renewed}
use lac.Leasing.State.{Service}
use lac.Leasing.Holding.{
  renew_tx, renew, release_tx, release_as, release, cancel_tx, cancel_as, cancel,
}
use lac.Leasing.Steps.{run_ok, run_err}

-- The database's test of a live lease is the domain's.
pub active_at-active : (now : Time) (l : LeaseRow) → active_at now l ≡ active (scan_lease l) now
unfolding active_at active scan_lease
active_at-active now l = ground (arith, ltb-require_micros now l.expires_at)

exists-nowhere :
    (q : LeaseRow → Bool) (id : String) (rows : List LeaseRow)
    → count_where (λ x. x.id == id) rows ≡ 0
    → exists (λ x. x.id == id && q x) rows ≡ false
unfolding exists count_where
exists-nowhere q id [] h = refl
exists-nowhere q id (x ∷ rows) h = ground (arith, exists-nowhere q id rows)

-- Where one row has the identifier, a query for it with a further test asks that row.
exists-only :
    (q : LeaseRow → Bool) (id : String) (rows : List LeaseRow) (l : LeaseRow)
    → count_where (λ x. x.id == id) rows ≤ 1
    → find (λ x. x.id == id) rows ≡ some l
    → exists (λ x. x.id == id && q x) rows ≡ q l
unfolding exists find count_where
exists-only q id [] l unique h = absurd (ground arith)
exists-only q id (x ∷ rows) l unique h = elim (Bool-cases (x.id == id)) [
  | inl e ↦
      let same : x ≡ l = ground arith in rw (← same) (ground (arith, exists-nowhere q id rows))
  | inr e ↦ ground (arith, exists-only q id rows l)
]

find-updated :
    (q : LeaseRow → Bool) (f : LeaseRow → LeaseRow) (id : String) (rows : List LeaseRow)
    (l : LeaseRow)
    → ((x : LeaseRow) → (f x).id ≡ x.id)
    → find (λ x. x.id == id) rows ≡ some l
    → find (λ x. x.id == id) (update_where (λ x. x.id == id && q x) f rows)
      ≡ some (if q l then f l else l)
unfolding find update_where
find-updated q f id [] l same h = absurd (ground arith)
find-updated q f id (x ∷ rows) l same h = elim (Bool-cases (x.id == id)) [
  | inl e ↦ let found : x ≡ l = ground arith in rw (← found) (ground (arith, same x))
  | inr e ↦ ground (arith, find-updated q f id rows l same)
]

stranger_renews :
    (agent id : String) (now : Time) (s : Db) (l : LeaseRow)
    → find (λ l'. l'.id == id) s.leases ≡ some l
    → (l.agent_id == agent) ≡ false
    → renew_tx agent id now s ≡ err unauthorised
unfolding renew_tx Leases.lease_by_id scan_lease run_tx
stranger_renews agent id now s l found other = ground arith

stranger_releases :
    (agent id : String) (now : Time) (s : Db) (l : LeaseRow)
    → find (λ l'. l'.id == id) s.leases ≡ some l
    → (l.agent_id == agent) ≡ false
    → release_tx agent id false now s ≡ err unauthorised
unfolding release_tx Leases.lease_by_id scan_lease run_tx
stranger_releases agent id now s l found other = ground arith

stranger_cancels :
    (agent id : String) (now : Time) (s : Db) (q : QueueRow)
    → find (λ q'. q'.id == id) s.queue_entries ≡ some q
    → (q.agent_id == agent) ≡ false
    → cancel_tx agent id false now s ≡ err unauthorised
unfolding cancel_tx Queue.queue_entry_by_id scan_queue_entry run_tx
stranger_cancels agent id now s q found other = ground arith

-- What another agent holds or asks for is out of reach: to renew or to release a lease of another
-- agent, and to cancel a request of another agent, is refused as unauthorised, and changes nothing.
pub strangers_are_refused :
    (agent lease_id entry_id : String) (now : Time) (s : Service) (l : LeaseRow) (q : QueueRow)
    → find (λ l'. l'.id == lease_id) s.db.leases ≡ some l
    → (l.agent_id == agent) ≡ false
    → find (λ q'. q'.id == entry_id) s.db.queue_entries ≡ some q
    → (q.agent_id == agent) ≡ false
    → (renew agent lease_id now s ≡ (err unauthorised, s))
      × (release agent lease_id now s ≡ (err unauthorised, s))
      × (cancel agent entry_id now s ≡ (err unauthorised, s))
unfolding renew release release_as cancel cancel_as
strangers_are_refused agent lease_id entry_id now s l q found other queued other' = (
  run_err (renew_tx agent lease_id now) s unauthorised
      (stranger_renews agent lease_id now s.db l found other),
  rw
      (run_err (release_tx agent lease_id false now) s unauthorised
        (stranger_releases agent lease_id now s.db l found other))
      refl,
  rw
      (run_err (cancel_tx agent entry_id false now) s unauthorised
        (stranger_cancels agent entry_id now s.db q queued other'))
      refl,
)

-- The database once the agent's lease was renewed.
abbrev renewed_db : String → String → Time → Time → LeaseRow → Db → Db
renewed_db agent id until now l s = record s {
  leases = update_where (renewable id now) (extend_row until) s.leases;
  audit_log =
      s.audit_log
      ++ AuditLog.row_of (record {
        actor = agent;
        action = lease_renewed;
        target = l.resource_name;
        detail = "lease " ^^ id;
        at = now;
      })
        ∷ [];
}

renew_tx-live :
    (agent id : String) (now : Time) (s : Db) (l : LeaseRow) (r : ResourceRow)
    → find (λ l'. l'.id == id) s.leases ≡ some l
    → find (λ r'. r'.name == l.resource_name) s.resources ≡ some r
    → exists (renewable id now) s.leases ≡ true
    → (l.agent_id == agent) ≡ true
    → (agent == "") ≡ false
    → let until = now + r.lease_ttl_micros * 1000 in
      renew_tx agent id now s
      ≡ ok (record (scan_lease l) { expires_at = until }, renewed_db agent id until now l s)
unfolding renew_tx run_tx Resources.by_name Leases.lease_by_id Leases.renew AuditLog.append
    scan_lease scan_resource
renew_tx-live agent id now s l r found defined live holder named = ground arith

find-extended :
    (id : String) (now until : Time) (rows : List LeaseRow) (l : LeaseRow)
    → find (λ x. x.id == id) rows ≡ some l
    → find (λ x. x.id == id) (update_where (renewable id now) (extend_row until) rows)
      ≡ some (if active_at now l then extend_row until l else l)
unfolding renewable extend_row
find-extended id now until rows l h =
    find-updated (active_at now) (extend_row until) id rows l (λ x. refl) h

exists-renewable :
    (id : String) (now : Time) (rows : List LeaseRow) (l : LeaseRow)
    → count_where (λ x. x.id == id) rows ≤ 1
    → find (λ x. x.id == id) rows ≡ some l
    → exists (renewable id now) rows ≡ active_at now l
unfolding renewable
exists-renewable id now rows l unique h = exists-only (active_at now) id rows l unique h

renew_tx-over :
    (agent id : String) (now : Time) (s : Db) (l : LeaseRow) (r : ResourceRow)
    → find (λ l'. l'.id == id) s.leases ≡ some l
    → find (λ r'. r'.name == l.resource_name) s.resources ≡ some r
    → exists (renewable id now) s.leases ≡ false
    → (l.agent_id == agent) ≡ true
    → renew_tx agent id now s ≡ err conflict
unfolding renew_tx run_tx Resources.by_name Leases.lease_by_id Leases.renew
    Leases.explain_failed_renewal scan_lease scan_resource
renew_tx-over agent id now s l r found defined over holder =
    ground (arith, find-extended id now (now + r.lease_ttl_micros * 1000) s.leases l found)

-- The holder's renewal is decided by the lease alone: while it is active it is renewed, for the
-- resource's time to live from now, and the table has the new expiry; once it was released or ran out
-- the renewal is refused as a conflict, and the lease stays as it is. The lease's identifier is
-- unique, and its resource is defined.
pub renewal_needs_a_live_lease :
    (agent id : String) (now : Time) (s : Service) (l : LeaseRow) (r : ResourceRow)
    → find (λ l'. l'.id == id) s.db.leases ≡ some l
    → find (λ r'. r'.name == l.resource_name) s.db.resources ≡ some r
    → leases_with id s.db ≤ 1
    → (l.agent_id == agent) ≡ true
    → (agent == "") ≡ false
    → let until = now + r.lease_ttl_micros * 1000 in
      let live = active (scan_lease l) now in
      ((renew agent id now s).0
        ≡ (if live then ok (record (scan_lease l) { expires_at = until }) else err conflict))
      × (find (λ l'. l'.id == id) (renew agent id now s).1.db.leases
          ≡ some (if live then extend_row until l else l))
unfolding renew
renewal_needs_a_live_lease agent id now s l r found defined unique holder named =
    let only = exists-renewable id now s.db.leases l unique found in
    rw (← active_at-active now l) (elim (Bool-cases (active_at now l)) [
      | inl live ↦
          let until = now + r.lease_ttl_micros * 1000 in
          let done = renew_tx-live agent id now s.db l r found defined (only ∙ live) holder named in
          rw (run_ok (renew_tx agent id now) s (renewed_db agent id until now l s.db) _ done, live)
            (refl, rw live at (find-extended id now until s.db.leases l found))
      | inr over ↦
          rw
            (
              run_err (renew_tx agent id now) s conflict
                  (renew_tx-over agent id now s.db l r found defined (only ∙ over) holder),
              over,
            )
            (refl, found)
    ])
