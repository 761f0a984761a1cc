-- ===== src/Leasing/Finality.antt =====
-- What no history of the service undoes.
use lac.Base.{ℕ, String, ◌==◌, true, false, some, List, [], ◌∷◌, ◌++◌, ◌≡◌, find}
use lac.Base.Growth.{Grows-find, Grows-same}
use lac.Base.Ensures.{Ensures, ensures_rules}
use lac.Core.Time.{Time}
use lac.Core.Resource.{Resource}
use lac.Core.Lease.{Lease, QueueEntry, terminal}
use lac.Store.{QueueRow, LeaseRow, AuditRow}
use lac.Store.Later.{
  Later, EntryLater, LeaseLater, Later-IsPreorder, append-Later, resolve_queue_entry-Later,
  enqueue-Later, create_lease-Later, release-Later, renew-Later, define-Later,
}
use lac.Store.Leases.{is_null}
use lac.Leasing.State.{Service}
use lac.Leasing.Grant.{try_grant_tx, grant}
use lac.Leasing.Transactions.{Statements, queries}
use lac.Leasing.Events.{Event, defines, attempts, apply, replay}
use lac.Leasing.EventRelations.{Covers, apply-rel}

Later-Statements : (now : Time) → Statements Later now
Later-Statements now = record {
  preorder = Later-IsPreorder;
  appends = append-Later;
  resolves = λ id state. resolve_queue_entry-Later id state now;
  enqueues = enqueue-Later;
  releases = λ id. release-Later id now;
  renews = λ id until. renew-Later id until now;
}

grant-Later :
    (entry : QueueEntry) (r : Resource) (lease : Lease) (now : Time)
    → Ensures Later (grant entry r lease now)
unfolding grant
grant-Later entry r lease now =
    search
      (ensures_rules, Later-IsPreorder, create_lease-Later, resolve_queue_entry-Later, append-Later)
      depth 20

try_grant_tx-Later :
    (entry : QueueEntry) (metadata : List ℕ) (id : String) (now : Time)
    → Ensures Later (try_grant_tx entry metadata id now)
unfolding try_grant_tx
try_grant_tx-Later entry metadata id now =
    search (ensures_rules, queries, Later-IsPreorder, grant-Later) depth 30 fits 20000

Covers-Later : (now : Time) (e : Event) → Covers Later now e
Covers-Later now (defines actor r) = λ r' same capacity. define-Later now r'
Covers-Later now (attempts entry metadata id) = try_grant_tx-Later entry metadata id now
Covers-Later now _ = tt

module _ (describe : Resource → String) (format_time : Time → String) where
  replay-Later :
      (events : List (Time × Event)) (s : Service)
      → Later s.db (replay describe format_time events s).db
  unfolding replay
  replay-Later [] s = Later-IsPreorder.rel_refl s.db
  replay-Later ((now, e) ∷ es) s =
      Later-IsPreorder.rel_trans _ _ _
        (apply-rel describe format_time now (Later-Statements now) e s (Covers-Later now e))
        (replay-Later es (apply describe format_time now e s))

  -- Over any history, an entry that has left the queue keeps its row as it is: a cancellation that
  -- races a grant does not undo the grant, and a cancelled request is never granted.
  pub resolved_entry_is_final :
      (events : List (Time × Event)) (s : Service) (id : String) (q : QueueRow)
      → find (λ q'. q'.id == id) s.db.queue_entries ≡ some q
      → terminal q.state ≡ true
      → find (λ q'. q'.id == id) (replay describe format_time events s).db.queue_entries ≡ some q
  resolved_entry_is_final events s id q found final =
      let (y, later, p) =
        Grows-find EntryLater (λ q'. q'.id == id) (λ x y p. rw p.id) s.db.queue_entries _ q
          (replay-Later events s).entries found in
      rw (← p.final final) later

  -- Over any history, a lease that was released keeps its row as it is: it is not revived, renewed or
  -- released again.
  pub released_lease_is_final :
      (events : List (Time × Event)) (s : Service) (id : String) (l : LeaseRow)
      → find (λ l'. l'.id == id) s.db.leases ≡ some l
      → is_null l.released_at ≡ false
      → find (λ l'. l'.id == id) (replay describe format_time events s).db.leases ≡ some l
  released_lease_is_final events s id l found final =
      let (y, later, p) =
        Grows-find LeaseLater (λ l'. l'.id == id) (λ x y p. rw p.id) s.db.leases _ l
          (replay-Later events s).leases found in
      rw (← p.final final) later

  -- Over any history, the audit log keeps the entries that it has, in order, and gains new ones only
  -- behind them.
  pub audit_log_append_only :
      (events : List (Time × Event)) (s : Service)
      → (more : List AuditRow) × ((replay describe format_time events s).db.audit_log
          ≡ s.db.audit_log ++ more)
  audit_log_append_only events s = Grows-same _ _ (replay-Later events s).audits
