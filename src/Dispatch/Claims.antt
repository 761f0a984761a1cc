-- ===== src/Dispatch/Claims.antt =====
-- Who gets which task.
use lac.Base.{String, ◌==◌, true, false, ◌&&◌, some, ◌≡◌, find, exists}
use lac.Base.Result.{Result}
use lac.Core.Time.{Time}
use lac.Core.Task.{Task}
use lac.Store.{Db, LeaseRow, TaskRow, scan_task}
use lac.Store.Leases
use lac.Store.Leases.{active_at}
use lac.Store.Tasks
use lac.Store.Tasks.{queued_rows, first, claimable, run_by}
use lac.Dispatch.State.{Catalogue}
use lac.Dispatch.Work.{Claimed, started}

-- The oldest queued task of the resource was taken, with the command that the operator configured for
-- its key; it runs now, by the worker on the lease, and is not to be claimed again.
pub record Handover (resource_name worker_id lease_id : String) (now : Time) (catalogue : Catalogue)
    (s : Db) (c : Claimed) (t : Db) : Type 0 where
  pub row : TaskRow
  pub oldest : first (queued_rows resource_name s) ≡ some row
  pub configured : catalogue.command row.command_key ≡ some c.command
  pub same : c.task ≡ started (scan_task row) worker_id lease_id now
  pub runs : exists (λ r. r.id == row.id && run_by worker_id r) t.tasks ≡ true
  pub taken : exists (claimable row.id) t.tasks ≡ false

-- The lease is the worker's, on the resource, and active.
pub record HoldsSlot (resource_name worker_id lease_id : String) (now : Time) (s : Db)
    : Type 0 where
  pub row : LeaseRow
  pub held : find (λ l. l.id == lease_id) s.leases ≡ some row
  pub holder : row.agent_id ≡ worker_id
  pub resource : row.resource_name ≡ resource_name
  pub live : active_at now row ≡ true
