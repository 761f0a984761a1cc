-- ===== src/Store/Queue.antt =====
-- store/sqlite/leases.go: the queue entries of the lease repository.
use lac.Base.{
  String, ◌==◌, Bool, true, false, not, ◌&&◌, some, List, [], ◌∷◌, ◌++◌, map, lt_ℤ, ltb,
  if◌then◌else◌, find, exists, update_where, select, order_by, text_lt,
}
use lac.Base.Result.{
  Tx, ◌>>=◌, ◌>>◌, return, require, or_fail, check, query, exec, invalid_argument, not_found,
  already_exists, conflict,
}
use lac.Core.Time.{Time, require_micros, to_micros}
use lac.Core.Lease.{QueueEntry, QueueEntryState, is_waiting, terminal, validate}
use lac.Store.{Db, QueueRow, scan_queue_entry}

unfoldable pub row_of : QueueEntry → QueueRow
unfolding require_micros to_micros
row_of e = record {
  id = e.id;
  resource_name = e.resource_name;
  agent_id = e.agent_id;
  priority = e.priority;
  reason = e.reason;
  state = e.state;
  requested_at = require_micros e.requested_at;
  resolved_at = to_micros e.resolved_at;
}

-- `Enqueue`. The `require` lines are the table's primary key and its two foreign keys.
unfoldable pub enqueue : QueueEntry → Tx Db (Unit {0})
unfolding row_of
enqueue entry = do
  check (validate entry)
  taken ← query (λ db. exists (λ q. q.id == entry.id) db.queue_entries)
  require (not taken) already_exists
  resource ← query (λ db. exists (λ r. r.name == entry.resource_name) db.resources)
  require resource invalid_argument
  agent ← query (λ db. exists (λ a. a.id == entry.agent_id) db.agents)
  require agent invalid_argument
  exec (λ db. record db { queue_entries = db.queue_entries ++ row_of entry ∷ [] })

-- `QueueEntryByID`.
unfoldable pub queue_entry_by_id : String → Tx Db QueueEntry
queue_entry_by_id entry_id = do
  row ← query (λ db. find (λ q. q.id == entry_id) db.queue_entries)
  found ← or_fail row not_found
  return (scan_queue_entry found)

-- `ORDER BY priority DESC, requested_at ASC, id ASC`.
unfoldable pub served_before : QueueRow → QueueRow → Bool
served_before a b =
    if lt_ℤ b.priority a.priority
    then true
    else if lt_ℤ a.priority b.priority
    then false
    else if ltb a.requested_at b.requested_at
    then true
    else if ltb b.requested_at a.requested_at
    then false
    else text_lt a.id b.id

unfoldable pub waiting_for : String → QueueRow → Bool
waiting_for resource_name q = q.resource_name == resource_name && is_waiting q.state

-- The rows that `Waiting` reads, in service order.
unfoldable pub waiting_rows : String → Db → List QueueRow
waiting_rows resource_name db =
    order_by served_before (select (waiting_for resource_name) db.queue_entries)

-- `Waiting`.
unfoldable pub waiting : String → Tx Db (List QueueEntry)
waiting resource_name = query (λ db. map scan_queue_entry (waiting_rows resource_name db))

-- `WaitingByAgent`.
unfoldable pub waiting_by_agent : String → Tx Db (List QueueEntry)
waiting_by_agent agent_id = query (λ db. map scan_queue_entry (
    order_by (λ a b. ltb a.requested_at b.requested_at)
      (select (λ q. q.agent_id == agent_id && is_waiting q.state) db.queue_entries)))

-- `WHERE id = ? AND state = 'waiting'`.
unfoldable pub still_waiting : String → QueueRow → Bool
still_waiting entry_id q = q.id == entry_id && is_waiting q.state

unfoldable pub resolve_row : QueueEntryState → Time → QueueRow → QueueRow
unfolding require_micros
resolve_row state at q = record q { state = state; resolved_at = some (require_micros at) }

-- `ResolveQueueEntry`: an entry that already reached a terminal state is left alone.
unfoldable pub resolve_queue_entry : String → QueueEntryState → Time → Tx Db (Unit {0})
unfolding still_waiting resolve_row
resolve_queue_entry entry_id state at = do
  require (terminal state) invalid_argument
  affected ← query (λ db. exists (still_waiting entry_id) db.queue_entries)
  exec (λ db. record db {
    queue_entries = update_where (still_waiting entry_id) (resolve_row state at) db.queue_entries;
  })
  require affected conflict
