-- ===== src/Store/Resources.antt =====
-- store/sqlite/resources.go: the resource repository.
use lac.Base.{
  ◌/◌, String, ◌==◌, Bool, false, not, Option, none, some, List, [], ◌∷◌, ◌++◌, map, pos_part, ltb,
  if◌then◌else◌, find, exists, update_where, select, order_by, text_lt,
}
use lac.Base.Result.{
  Tx, ◌>>=◌, ◌>>◌, return, require, or_fail, check, query, exec, invalid_argument, not_found,
}
use lac.Core.Time.{Time, require_micros}
use lac.Core.Resource.{Resource, validate}
use lac.Store.{Db, ResourceRow, QueueRow, LeaseRow, TaskRow, scan_resource}

unfoldable pub created_or : Time → Option Time → Time
created_or now none = now
created_or now (some t) = t

unfoldable pub row_of : Resource → Time → ResourceRow
unfolding require_micros
row_of r created_at = record {
  name = r.name;
  capacity = pos_part r.capacity;
  lease_ttl_micros = pos_part r.lease_time_to_live / 1000;
  description = r.description;
  created_at = require_micros created_at;
}

-- `ON CONFLICT (name) DO UPDATE`: the name and the creation time stay.
unfoldable pub reconfigure : ResourceRow → ResourceRow → ResourceRow
reconfigure excluded row = record row {
  capacity = excluded.capacity;
  lease_ttl_micros = excluded.lease_ttl_micros;
  description = excluded.description;
}

unfoldable pub upsert : ResourceRow → List ResourceRow → List ResourceRow
unfolding reconfigure
upsert row rows =
    if exists (λ r. r.name == row.name) rows
    then update_where (λ r. r.name == row.name) (reconfigure row) rows
    else rows ++ row ∷ []

-- `Define`; `now` is the clock that a zero creation time is replaced by. The two `require` lines are
-- the table's CHECK constraints.
unfoldable pub define : Time → Resource → Tx Db (Unit {0})
unfolding created_or row_of upsert
define now resource = do
  check (validate resource)
  let row = row_of resource (created_or now resource.created_at)
  require (ltb 0 row.capacity) invalid_argument
  require (ltb 0 row.lease_ttl_micros) invalid_argument
  exec (λ db. record db { resources = upsert row db.resources })

-- `ByName`.
unfoldable pub by_name : String → Tx Db Resource
by_name name = do
  row ← query (λ db. find (λ r. r.name == name) db.resources)
  found ← or_fail row not_found
  return (scan_resource found)

-- `List`: every resource, by name.
unfoldable pub list : Tx Db (List Resource)
list = query (λ db. map scan_resource (order_by (λ a b. text_lt a.name b.name) db.resources))

-- `ON DELETE SET NULL` of a lease's queue entry.
forget_entry : LeaseRow → LeaseRow
forget_entry l = record l { queue_entry_id = none }

points_to : List QueueRow → LeaseRow → Bool
points_to entries l = elim l.queue_entry_id [
  | none ↦ false
  | some entry_id ↦ exists (λ q. q.id == entry_id) entries
]

forget_lease : TaskRow → TaskRow
forget_lease t = record t { lease_id = none }

runs_on : List LeaseRow → TaskRow → Bool
runs_on leases t = elim t.lease_id [
  | none ↦ false
  | some lease_id ↦ exists (λ l. l.id == lease_id) leases
]

-- `Delete`, with the cascades of the foreign keys: the queue entries, the leases and the tasks of the
-- resource go; a lease that names one of those entries, and a task that names one of those leases,
-- loses the name.
unfoldable pub delete : String → Tx Db (Unit {0})
unfolding forget_entry points_to forget_lease runs_on
delete name = do
  affected ← query (λ db. exists (λ r. r.name == name) db.resources)
  gone ← query (λ db. select (λ q. q.resource_name == name) db.queue_entries)
  lost ← query (λ db. select (λ l. l.resource_name == name) db.leases)
  exec (λ db. record db {
    resources = select (λ r. not (r.name == name)) db.resources;
    queue_entries = select (λ q. not (q.resource_name == name)) db.queue_entries;
    leases =
        update_where (points_to gone) forget_entry
          (select (λ l. not (l.resource_name == name)) db.leases);
    tasks =
        update_where (runs_on lost) forget_lease
          (select (λ t. not (t.resource_name == name)) db.tasks);
  })
  require affected not_found
