-- ===== src/Store/Later.antt =====
-- What no statement undoes: an entry that left the queue keeps its state, a released lease stays as
-- it is, and the audit log is only appended to.
use lac.Base.{String, Bool, true, false, List, [], ◌∷◌, ◌++◌, ◌≡◌, refl, arith, update_where}
use lac.Base.Growth.{Grows, Grows-refl, Grows-trans, Grows-append, Grows-update_where}
use lac.Base.Result.{exec}
use lac.Base.Ensures.{Ensures, IsPreorder, ensures_rules, Ensures-exec}
use lac.Core.Time.{Time}
use lac.Core.Resource.{Resource}
use lac.Core.Lease.{Lease, QueueEntry, QueueEntryState, terminal}
use lac.Core.Audit.{AuditEntry}
use lac.Store.{Db, QueueRow, LeaseRow, ResourceRow, AuditRow}
use lac.Store.Resources
use lac.Store.Queue.{enqueue, resolve_queue_entry, still_waiting, resolve_row}
use lac.Store.Leases
use lac.Store.Leases.{is_null}
use lac.Store.AuditLog.{append}

-- A request keeps its place in the order of service, and once it has left the queue it is final.
pub record EntryLater (x y : QueueRow) : Type 0 where
  pub id : y.id ≡ x.id
  pub resource_name : y.resource_name ≡ x.resource_name
  pub agent_id : y.agent_id ≡ x.agent_id
  pub priority : y.priority ≡ x.priority
  pub requested_at : y.requested_at ≡ x.requested_at
  pub final : terminal x.state ≡ true → y ≡ x

-- A lease keeps its holder, and once it is released it is final.
pub record LeaseLater (x y : LeaseRow) : Type 0 where
  pub id : y.id ≡ x.id
  pub resource_name : y.resource_name ≡ x.resource_name
  pub agent_id : y.agent_id ≡ x.agent_id
  pub queue_entry_id : y.queue_entry_id ≡ x.queue_entry_id
  pub acquired_at : y.acquired_at ≡ x.acquired_at
  pub final : is_null x.released_at ≡ false → y ≡ x

abbrev pub SameEntry : AuditRow → AuditRow → Type 0
SameEntry x y = y ≡ x

pub record Later (s t : Db) : Type 0 where
  pub entries : Grows EntryLater s.queue_entries t.queue_entries
  pub leases : Grows LeaseLater s.leases t.leases
  pub audits : Grows SameEntry s.audit_log t.audit_log

EntryLater-refl : (x : QueueRow) → EntryLater x x
EntryLater-refl x = ground arith

EntryLater-trans : (x y z : QueueRow) → EntryLater x y → EntryLater y z → EntryLater x z
EntryLater-trans x y z p q = ground arith

LeaseLater-refl : (x : LeaseRow) → LeaseLater x x
LeaseLater-refl x = ground arith

LeaseLater-trans : (x y z : LeaseRow) → LeaseLater x y → LeaseLater y z → LeaseLater x z
LeaseLater-trans x y z p q = ground arith

Same-trans : (x y z : AuditRow) → SameEntry x y → SameEntry y z → SameEntry x z
Same-trans x y z p q = ground arith

Later-refl : (s : Db) → Later s s
Later-refl s = record {
  entries = Grows-refl EntryLater EntryLater-refl s.queue_entries;
  leases = Grows-refl LeaseLater LeaseLater-refl s.leases;
  audits = Grows-refl SameEntry (λ x. refl) s.audit_log;
}

pub Later-IsPreorder : IsPreorder Later
Later-IsPreorder = record {
  rel_refl = Later-refl;
  rel_trans = λ s t u p q. record {
    entries = Grows-trans EntryLater EntryLater-trans _ _ _ p.entries q.entries;
    leases = Grows-trans LeaseLater LeaseLater-trans _ _ _ p.leases q.leases;
    audits = Grows-trans SameEntry Same-trans _ _ _ p.audits q.audits;
  };
}

-- Statements that write one of the three tables.
Later-entries :
    (s : Db) (rows : List QueueRow)
    → Grows EntryLater s.queue_entries rows
    → Later s (record s { queue_entries = rows })
Later-entries s rows g = record {
  entries = g;
  leases = (Later-refl s).leases;
  audits = (Later-refl s).audits;
}

Later-leases :
    (s : Db) (rows : List LeaseRow)
    → Grows LeaseLater s.leases rows
    → Later s (record s { leases = rows })
Later-leases s rows g = record {
  entries = (Later-refl s).entries;
  leases = g;
  audits = (Later-refl s).audits;
}

Later-audits :
    (s : Db) (rows : List AuditRow) → Later s (record s { audit_log = s.audit_log ++ rows })
Later-audits s rows = record {
  entries = (Later-refl s).entries;
  leases = (Later-refl s).leases;
  audits = Grows-append SameEntry (λ x. refl) s.audit_log rows;
}

-- A statement on the definitions of the resources.
same_tables-Later : (s : Db) (rows : List ResourceRow) → Later s (record s { resources = rows })
same_tables-Later s rows = record {
  entries = (Later-refl s).entries;
  leases = (Later-refl s).leases;
  audits = (Later-refl s).audits;
}

pub append-Later : (e : AuditEntry) → Ensures Later (append e)
unfolding append
append-Later e = search (ensures_rules, Later-IsPreorder, Ensures-exec, Later-audits)

resolved-Later :
    (id : String) (state : QueueEntryState) (at : Time) (q : QueueRow)
    → still_waiting id q ≡ true
    → EntryLater q (resolve_row state at q)
unfolding still_waiting resolve_row
resolved-Later id state at q h = ground arith

resolve_rows-Later :
    (id : String) (state : QueueEntryState) (at : Time) (rows : List QueueRow)
    → Grows EntryLater rows (update_where (still_waiting id) (resolve_row state at) rows)
resolve_rows-Later id state at rows =
    Grows-update_where EntryLater EntryLater-refl _ _ (resolved-Later id state at) rows

pub resolve_queue_entry-Later :
    (id : String) (state : QueueEntryState) (at : Time)
    → Ensures Later (resolve_queue_entry id state at)
unfolding resolve_queue_entry
resolve_queue_entry-Later id state at =
    search (ensures_rules, Later-IsPreorder, Ensures-exec, Later-entries, resolve_rows-Later) depth
      20

added-Later : (rows more : List QueueRow) → Grows EntryLater rows (rows ++ more)
added-Later rows more = Grows-append EntryLater EntryLater-refl rows more

pub enqueue-Later : (e : QueueEntry) → Ensures Later (enqueue e)
unfolding enqueue
enqueue-Later e =
    search (ensures_rules, Later-IsPreorder, Ensures-exec, Later-entries, added-Later) depth 20

leased-Later : (rows more : List LeaseRow) → Grows LeaseLater rows (rows ++ more)
leased-Later rows more = Grows-append LeaseLater LeaseLater-refl rows more

insert_lease-Later :
    (row : LeaseRow) → Ensures Later (exec (λ s. record s { leases = s.leases ++ row ∷ [] }))
insert_lease-Later row =
    Ensures-exec {R = Later} _ (λ s. Later-leases s _ (leased-Later s.leases (row ∷ [])))

pub create_lease-Later : (l : Lease) → Ensures Later (Leases.create_lease l)
unfolding Leases.create_lease
create_lease-Later l =
    search (ensures_rules, Later-IsPreorder, insert_lease-Later) depth 30 fits 20000

released-Later :
    (id : String) (at : Time) (l : LeaseRow)
    → Leases.unreleased id l ≡ true
    → LeaseLater l (Leases.release_row at l)
unfolding Leases.unreleased Leases.release_row
released-Later id at l h = ground arith

extended-Later :
    (id : String) (until now : Time) (l : LeaseRow)
    → Leases.renewable id now l ≡ true
    → LeaseLater l (Leases.extend_row until l)
unfolding Leases.renewable Leases.extend_row
extended-Later id until now l h = ground arith

update_leases-Later :
    (test : LeaseRow → Bool) (f : LeaseRow → LeaseRow) (s : Db)
    → ((l : LeaseRow) → test l ≡ true → LeaseLater l (f l))
    → Later s (record s { leases = update_where test f s.leases })
update_leases-Later test f s h =
    Later-leases s _ (Grows-update_where LeaseLater LeaseLater-refl test f h s.leases)

pub release-Later : (id : String) (at : Time) → Ensures Later (Leases.release id at)
unfolding Leases.release
release-Later id at = Ensures-exec _ (λ s. update_leases-Later _ _ s (released-Later id at))

pub renew-Later : (id : String) (until now : Time) → Ensures Later (Leases.renew id until now)
unfolding Leases.renew Leases.lease_by_id
renew-Later id until now =
    search
      (
        ensures_rules,
        Later-IsPreorder,
        Ensures-exec,
        update_leases-Later,
        extended-Later id until now,
      )
      depth 20

pub define-Later : (now : Time) (r : Resource) → Ensures Later (Resources.define now r)
unfolding Resources.define
define-Later now r =
    search (ensures_rules, Later-IsPreorder, Ensures-exec, same_tables-Later) depth 20
