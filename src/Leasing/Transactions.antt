-- ===== src/Leasing/Transactions.antt =====
-- From the statements to the transactions and the events: a reflexive and transitive relation that
-- each statement of the storage keeps is kept by every transaction of the service.
use lac.Base.{String, Bool}
use lac.Base.Ensures.{Ensures, IsPreorder, Reads, ensures_rules, reads_rules}
use lac.Core.Time.{Time}
use lac.Core.Audit.{AuditAction}
use lac.Core.Lease.{Lease, QueueEntry}
use lac.Store.{Db}
use lac.Store.Resources.{by_name}
use lac.Store.Queue
use lac.Store.Leases
use lac.Store.Queue.{enqueue, resolve_queue_entry}
use lac.Store.AuditLog.{append}
use lac.Core.Lease.{QueueEntryState}
use lac.Core.Audit.{AuditEntry}
use lac.Leasing.Holding.{renew_tx, release_tx, cancel_tx}
use lac.Leasing.Reclaim.{
  release_one, clear_one, release_everything_tx, free_resource_tx, clear_queue_tx, reap_expired_tx,
}

pub by_name-Reads : (n : String) → Reads (by_name n)
unfolding by_name
by_name-Reads n = search reads_rules

pub lease_by_id-Reads : (id : String) → Reads (Leases.lease_by_id id)
unfolding Leases.lease_by_id
lease_by_id-Reads id = search reads_rules

pub queue_entry_by_id-Reads : (id : String) → Reads (Queue.queue_entry_by_id id)
unfolding Queue.queue_entry_by_id
queue_entry_by_id-Reads id = search reads_rules

pub waiting-Reads : (n : String) → Reads (Queue.waiting n)
unfolding Queue.waiting
waiting-Reads n = search reads_rules

pub waiting_by_agent-Reads : (n : String) → Reads (Queue.waiting_by_agent n)
unfolding Queue.waiting_by_agent
waiting_by_agent-Reads n = search reads_rules

pub active_leases-Reads : (n : String) (at : Time) → Reads (Leases.active_leases n at)
unfolding Leases.active_leases
active_leases-Reads n at = search reads_rules

pub active_leases_by_agent-Reads :
    (n : String) (at : Time) → Reads (Leases.active_leases_by_agent n at)
unfolding Leases.active_leases_by_agent
active_leases_by_agent-Reads n at = search reads_rules

pub expired_leases-Reads : (at : Time) → Reads (Leases.expired_leases at)
unfolding Leases.expired_leases
expired_leases-Reads at = search reads_rules

pub count_active_leases-Reads : (n : String) (at : Time) → Reads (Leases.count_active_leases n at)
unfolding Leases.count_active_leases
count_active_leases-Reads n at = search reads_rules

pub ruleset queries = (
  count_active_leases-Reads, by_name-Reads, lease_by_id-Reads, queue_entry_by_id-Reads,
  waiting-Reads, waiting_by_agent-Reads, active_leases-Reads, active_leases_by_agent-Reads,
  expired_leases-Reads,
)

pub record Statements (R : Db → Db → Type 0) (now : Time) : Type 0 where
  pub preorder : IsPreorder R
  pub appends : (e : AuditEntry) → Ensures R (append e)
  pub resolves :
      (id : String) (state : QueueEntryState) → Ensures R (resolve_queue_entry id state now)
  pub enqueues : (e : QueueEntry) → Ensures R (enqueue e)
  pub releases : (id : String) → Ensures R (Leases.release id now)
  pub renews : (id : String) (until : Time) → Ensures R (Leases.renew id until now)

module _ {R : Db → Db → Type 0} (now : Time) (statements : Statements R now) where
  open statements use {preorder, appends, resolves, releases, renews}

  pub renew_tx-rel : (a l : String) → Ensures R (renew_tx a l now)
  unfolding renew_tx
  renew_tx-rel a l = search (ensures_rules, queries, preorder, appends, renews) depth 20

  pub release_tx-rel : (a l : String) (force : Bool) → Ensures R (release_tx a l force now)
  unfolding release_tx
  release_tx-rel a l force = search (ensures_rules, queries, preorder, appends, releases) depth 20

  pub cancel_tx-rel : (a q : String) (force : Bool) → Ensures R (cancel_tx a q force now)
  unfolding cancel_tx
  cancel_tx-rel a q force = search (ensures_rules, queries, preorder, appends, resolves) depth 20

  release_one-rel :
      (actor : String) (action : AuditAction) (target detail : Lease → String) (l : Lease)
      → Ensures R (release_one actor action target detail now l)
  unfolding release_one
  release_one-rel actor action target detail l =
      search (ensures_rules, queries, preorder, appends, releases)

  clear_one-rel : (actor n : String) (q : QueueEntry) → Ensures R (clear_one actor n now q)
  unfolding clear_one
  clear_one-rel actor n q = search (ensures_rules, queries, preorder, appends, resolves)

  pub release_everything_tx-rel :
      (actor a reason : String) → Ensures R (release_everything_tx actor a reason now)
  unfolding release_everything_tx
  release_everything_tx-rel actor a reason =
      search (ensures_rules, queries, preorder, resolves, release_one-rel) depth 20

  pub free_resource_tx-rel : (actor n : String) → Ensures R (free_resource_tx actor n now)
  unfolding free_resource_tx
  free_resource_tx-rel actor n = search (ensures_rules, queries, preorder, release_one-rel) depth 20

  pub clear_queue_tx-rel : (actor n : String) → Ensures R (clear_queue_tx actor n now)
  unfolding clear_queue_tx
  clear_queue_tx-rel actor n = search (ensures_rules, queries, preorder, clear_one-rel) depth 20

  pub reap_expired_tx-rel : (format : Time → String) → Ensures R (reap_expired_tx format now)
  unfolding reap_expired_tx
  reap_expired_tx-rel format = search (ensures_rules, queries, preorder, release_one-rel) depth 20
