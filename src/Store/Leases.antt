-- ===== src/Store/Leases.antt =====
-- store/sqlite/leases.go: the leases of the lease repository.
use lac.Base.{
  ℕ, String, ◌==◌, Bool, true, false, not, ◌&&◌, ◌||◌, Option, none, some, List, [], ◌∷◌, ◌++◌, map,
  ltb, leb, if◌then◌else◌, find, exists, update_where, select, count_where, order_by,
}
use lac.Base.Result.{
  Tx, ◌>>=◌, ◌>>◌, return, fail, require, or_fail, query, exec, invalid_argument, not_found,
  already_exists, conflict,
}
use lac.Core.Time.{Time, require_micros, to_micros}
use lac.Core.Lease.{Lease}
use lac.Store.{Db, LeaseRow, scan_lease, null_string}

abbrev pub is_null : Option ℕ → Bool
is_null none = true
is_null (some t) = false

-- `released_at IS NULL AND expires_at > ?`.
unfoldable pub active_at : Time → LeaseRow → Bool
unfolding require_micros
active_at at l = is_null l.released_at && ltb (require_micros at) l.expires_at

unfoldable pub active_on : String → Time → LeaseRow → Bool
unfolding active_at
active_on resource_name at l = l.resource_name == resource_name && active_at at l

unfoldable pub active_by : String → Time → LeaseRow → Bool
unfolding active_at
active_by agent_id at l = l.agent_id == agent_id && active_at at l

-- `released_at IS NULL AND expires_at <= ?`.
unfoldable pub expired_at : Time → LeaseRow → Bool
unfolding require_micros
expired_at at l = is_null l.released_at && leb l.expires_at (require_micros at)

unfoldable pub row_of : Lease → LeaseRow
unfolding require_micros to_micros null_string
row_of l = record {
  id = l.id;
  resource_name = l.resource_name;
  agent_id = l.agent_id;
  queue_entry_id = null_string l.queue_entry_id;
  acquired_at = require_micros l.acquired_at;
  expires_at = require_micros l.expires_at;
  released_at = to_micros l.released_at;
  metadata = l.metadata;
}

-- `CountActiveLeases`.
unfoldable pub count_active : String → Time → Db → ℕ
unfolding active_on
count_active resource_name at db = count_where (active_on resource_name at) db.leases

unfoldable pub count_active_leases : String → Time → Tx Db ℕ
count_active_leases resource_name at = query (count_active resource_name at)

-- The foreign key of a nullable column.
refers_to : Option String → Db → Bool
refers_to none db = true
refers_to (some entry_id) db = exists (λ q. q.id == entry_id) db.queue_entries

-- `CreateLease`. The last four `require` lines are the table's primary key and its foreign keys.
unfoldable pub create_lease : Lease → Tx Db (Unit {0})
unfolding row_of refers_to
create_lease lease = do
  require (not (lease.id == "" || lease.agent_id == "")) invalid_argument
  require (ltb lease.acquired_at lease.expires_at) invalid_argument
  taken ← query (λ db. exists (λ l. l.id == lease.id) db.leases)
  require (not taken) already_exists
  resource ← query (λ db. exists (λ r. r.name == lease.resource_name) db.resources)
  require resource invalid_argument
  agent ← query (λ db. exists (λ a. a.id == lease.agent_id) db.agents)
  require agent invalid_argument
  entry ← query (refers_to (null_string lease.queue_entry_id))
  require entry invalid_argument
  exec (λ db. record db { leases = db.leases ++ row_of lease ∷ [] })

-- `LeaseByID`.
unfoldable pub lease_by_id : String → Tx Db Lease
lease_by_id lease_id = do
  row ← query (λ db. find (λ l. l.id == lease_id) db.leases)
  found ← or_fail row not_found
  return (scan_lease found)

unfoldable pub by_acquired : LeaseRow → LeaseRow → Bool
by_acquired a b = ltb a.acquired_at b.acquired_at

-- `ActiveLeases`.
unfoldable pub active_leases : String → Time → Tx Db (List Lease)
unfolding by_acquired active_on
active_leases resource_name at =
    query
      (λ db. map scan_lease (order_by by_acquired (select (active_on resource_name at) db.leases)))

-- `ActiveLeasesByAgent`.
unfoldable pub active_leases_by_agent : String → Time → Tx Db (List Lease)
unfolding by_acquired active_by
active_leases_by_agent agent_id at =
    query (λ db. map scan_lease (order_by by_acquired (select (active_by agent_id at) db.leases)))

-- `WHERE id = ? AND released_at IS NULL AND expires_at > ?`.
unfoldable pub renewable : String → Time → LeaseRow → Bool
unfolding active_at
renewable lease_id at l = l.id == lease_id && active_at at l

unfoldable pub extend_row : Time → LeaseRow → LeaseRow
unfolding require_micros
extend_row expires_at l = record l { expires_at = require_micros expires_at }

-- `explainFailedRenewal`.
unfoldable pub explain_failed_renewal : String → Tx Db (Unit {0})
unfolding lease_by_id
explain_failed_renewal lease_id = do lease_by_id lease_id; fail conflict

-- `Renew`: a lease that was released or has expired is not revived.
unfoldable pub renew : String → Time → Time → Tx Db (Unit {0})
unfolding renewable extend_row explain_failed_renewal
renew lease_id expires_at at = do
  affected ← query (λ db. exists (renewable lease_id at) db.leases)
  exec (λ db. record db {
    leases = update_where (renewable lease_id at) (extend_row expires_at) db.leases;
  })
  if affected then return tt else explain_failed_renewal lease_id

-- `WHERE id = ? AND released_at IS NULL`.
unfoldable pub unreleased : String → LeaseRow → Bool
unreleased lease_id l = l.id == lease_id && is_null l.released_at

unfoldable pub release_row : Time → LeaseRow → LeaseRow
unfolding require_micros
release_row at l = record l { released_at = some (require_micros at) }

-- `Release`: to release a lease that is already released is no error.
unfoldable pub release : String → Time → Tx Db (Unit {0})
unfolding unreleased release_row
release lease_id at =
    exec
      (λ db. record db { leases = update_where (unreleased lease_id) (release_row at) db.leases })

-- `ExpiredLeases`.
unfoldable pub expired_leases : Time → Tx Db (List Lease)
unfolding expired_at
expired_leases at = query (λ db.
    map scan_lease
      (order_by (λ a b. ltb a.expires_at b.expires_at) (select (expired_at at) db.leases)))
