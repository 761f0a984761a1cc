-- ===== src/Leasing/EventRelations.antt =====
-- From the statements to the events: a relation that every statement of the storage keeps, and that
-- the definitions and the grants at hand keep, is kept by the event.
use lac.Base.{String, ◌≡◌, refl}
use lac.Base.Ensures.{Ensures, Ensures-Reads}
use lac.Core.Time.{Time}
use lac.Core.Resource.{Resource}
use lac.Store.{Db}
use lac.Store.Resources
use lac.Leasing.State.{Service}
use lac.Leasing.Resources.{completed, define}
use lac.Leasing.Grant.{try_grant, try_grant_tx}
use lac.Leasing.Acquire.{AcquireRequest, join, abandon, watch}
use lac.Leasing.Holding.{renew, release, force_release, cancel, force_cancel}
use lac.Leasing.Reclaim.{release_everything_held_by, free_resource, clear_queue, reap_expired}
use lac.Leasing.Steps.{
  run-rel, and_then-rel, quiet-rel, audit-rel, db-signal, db-signal_all, db-signal_grant,
  db-signal_reaped,
}
use lac.Leasing.Transactions.{
  Statements, by_name-Reads, renew_tx-rel, release_tx-rel, cancel_tx-rel, release_everything_tx-rel,
  free_resource_tx-rel, clear_queue_tx-rel, reap_expired_tx-rel,
}
use lac.Leasing.Events.{
  Event, defines, joins, attempts, gives_up, renews, releases, force_releases, cancels,
  force_cancels, reclaims, frees, clears, reaps, apply,
}

-- What an event asks of a relation beyond the statements.
abbrev pub Covers : (Db → Db → Type 0) → Time → Event → Type 0
Covers R now (defines actor r) =
    (r' : Resource)
    → r'.name ≡ r.name
    → r'.capacity ≡ r.capacity
    → Ensures R (Resources.define now r')
Covers R now (attempts entry metadata lease_id) =
    Ensures R (try_grant_tx entry metadata lease_id now)
Covers R now _ = Unit

module _ {R : Db → Db → Type 0} (describe : Resource → String) (format_time : Time → String)
    (now : Time) (statements : Statements R now) where
  open statements use {preorder, appends, resolves, enqueues}

  define-rel :
      (actor : String) (r : Resource) (s : Service)
      → Covers R now (defines actor r)
      → R s.db (define describe actor r now s).1.db
  unfolding define
  define-rel actor r s c =
      and_then-rel _ _ s preorder (c (completed s now r) refl refl)
        λ _ t. rw db-signal (audit-rel _ _ _ _ now t preorder appends)

  join-rel :
      (request : AcquireRequest) (id : String) (s : Service) → R s.db (join request id now s).1.db
  unfolding join
  join-rel request id s =
      and_then-rel _ _ s preorder (Ensures-Reads _ preorder (by_name-Reads _)) λ r t.
        and_then-rel _ _ t preorder (enqueues _) λ _ u. audit-rel _ _ _ _ now u preorder appends

  pub apply-rel :
      (e : Event) (s : Service) → Covers R now e → R s.db (apply describe format_time now e s).db
  unfolding apply abandon renew release force_release cancel force_cancel release_everything_held_by
      free_resource clear_queue reap_expired try_grant watch
  apply-rel (defines actor r) s c = define-rel actor r s c
  apply-rel (joins request id) s c = join-rel request id s
  apply-rel (attempts entry metadata id) s c =
      quiet-rel _ _ (watch entry.resource_name s) preorder c
        λ l t. db-signal_grant entry.resource_name l t
  apply-rel (gives_up entry cause) s c =
      quiet-rel _ _ s preorder (resolves entry.id _) λ _ t. db-signal entry.resource_name t
  apply-rel (renews a l) s c = run-rel _ s preorder (renew_tx-rel now statements a l)
  apply-rel (releases a l) s c =
      quiet-rel _ _ s preorder (release_tx-rel now statements a l _) db-signal
  apply-rel (force_releases a l) s c =
      quiet-rel _ _ s preorder (release_tx-rel now statements a l _) db-signal
  apply-rel (cancels a q) s c =
      quiet-rel _ _ s preorder (cancel_tx-rel now statements a q _) db-signal
  apply-rel (force_cancels a q) s c =
      quiet-rel _ _ s preorder (cancel_tx-rel now statements a q _) db-signal
  apply-rel (reclaims actor a reason) s c =
      quiet-rel _ _ s preorder (release_everything_tx-rel now statements actor a reason)
        λ _ t. db-signal_all t
  apply-rel (frees actor n) s c =
      quiet-rel _ _ s preorder (free_resource_tx-rel now statements actor n) λ _ t. db-signal n t
  apply-rel (clears actor n) s c =
      quiet-rel _ _ s preorder (clear_queue_tx-rel now statements actor n) λ _ t. db-signal n t
  apply-rel reaps s c =
      quiet-rel _ _ s preorder (reap_expired_tx-rel now statements format_time) db-signal_reaped
