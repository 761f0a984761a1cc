-- ===== src/Leasing/HandBack.antt =====
-- What the release of a lease gives back.
use lac.Base.{
  ◌+◌, ◌≤◌, String, ◌==◌, Bool, true, false, some, List, [], ◌∷◌, ◌++◌, ◌^^◌, ◌≡◌, refl, arith,
  ◌||◌, find, count_where, update_where, if◌then◌else◌, Bool-cases, inl, inr,
}
use lac.Base.Result.{ok, run_tx}
use lac.Core.Time.{Time}
use lac.Core.Audit.{lease_released}
use lac.Store.{Db, LeaseRow, scan_lease}
use lac.Store.Leases
use lac.Store.Leases.{active_at, active_on, count_active, unreleased, release_row}
use lac.Store.AuditLog
use lac.Store.Keys.{leases_with}
use lac.Leasing.State.{Service}
use lac.Leasing.Holding.{release_tx, release_as, release, force_release}
use lac.Leasing.Steps.{run_ok, db-signal}

-- No row has the identifier, and the update changes none.
counts-elsewhere :
    (p : LeaseRow → Bool) (id : String) (now : Time) (rows : List LeaseRow)
    → count_where (λ x. x.id == id) rows ≡ 0
    → count_where p (update_where (unreleased id) (release_row now) rows) ≡ count_where p rows
unfolding count_where update_where unreleased
counts-elsewhere p id now [] h = refl
counts-elsewhere p id now (x ∷ rows) h = ground (arith, counts-elsewhere p id now rows)

-- One row has the identifier, and gives its slot back.
counts-released :
    (n : String) (id : String) (now : Time) (rows : List LeaseRow) (l : LeaseRow)
    → count_where (λ x. x.id == id) rows ≤ 1
    → find (λ x. x.id == id) rows ≡ some l
    → count_where (active_on n now) rows
      ≡ count_where (active_on n now) (update_where (unreleased id) (release_row now) rows)
        + (if active_on n now l then 1 else 0)
unfolding count_where update_where find unreleased release_row active_on
counts-released n id now [] l unique h = absurd (ground arith)
counts-released n id now (x ∷ rows) l unique h = elim (Bool-cases (x.id == id)) [
  | inl e ↦
      let same : x ≡ l = ground arith in
      rw (← same) (ground (arith, counts-elsewhere (active_on n now) id now rows))
  | inr e ↦ ground (arith, counts-released n id now rows l)
]

abbrev released_db : String → String → Time → LeaseRow → Db → Db
released_db agent id now l s = record s {
  leases = update_where (unreleased id) (release_row now) s.leases;
  audit_log =
      s.audit_log
      ++ AuditLog.row_of (record {
        actor = agent;
        action = lease_released;
        target = l.resource_name;
        detail =
            if l.agent_id == agent
            then "lease " ^^ id
            else "lease " ^^ id ^^ " force-released from " ^^ l.agent_id;
        at = now;
      })
        ∷ [];
}

release_tx-total :
    (agent id : String) (force : Bool) (now : Time) (s : Db) (l : LeaseRow)
    → find (λ l'. l'.id == id) s.leases ≡ some l
    → (force || l.agent_id == agent) ≡ true
    → (agent == "") ≡ false
    → release_tx agent id force now s ≡ ok (l.resource_name, released_db agent id now l s)
unfolding release_tx run_tx Leases.lease_by_id Leases.release AuditLog.append scan_lease
release_tx-total agent id force now s l found allowed named = ground arith

-- A release by the holder, or one that an administrator forces, succeeds and gives one slot back: on
-- the lease's resource one lease less is active if the lease was active, and else, as on the other
-- resources, as many as before. The lease's identifier is unique.
pub release_gives_the_slot_back :
    (agent id : String) (force : Bool) (now : Time) (s : Service) (l : LeaseRow) (n : String)
    → find (λ l'. l'.id == id) s.db.leases ≡ some l
    → leases_with id s.db ≤ 1
    → (force || l.agent_id == agent) ≡ true
    → (agent == "") ≡ false
    → let r = if force then force_release agent id now s else release agent id now s in
      (r.0 ≡ ok tt)
      × (count_active n now s.db ≡ count_active n now r.1.db + (if active_on n now l then 1 else 0))
unfolding release force_release release_as count_active
release_gives_the_slot_back agent id true now s l n found unique allowed named =
    rw (run_ok _ s _ _ (release_tx-total agent id true now s.db l found allowed named))
      (refl, rw db-signal (counts-released n id now s.db.leases l unique found))
release_gives_the_slot_back agent id false now s l n found unique allowed named =
    rw (run_ok _ s _ _ (release_tx-total agent id false now s.db l found allowed named))
      (refl, rw db-signal (counts-released n id now s.db.leases l unique found))
