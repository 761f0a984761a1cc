-- ===== src/Dispatch/Abandoned.antt =====
-- The tasks of a worker that went away.
use lac.Base.{String, List}
use lac.Base.Loops.{Remaining}
use lac.Core.Time.{Time}
use lac.Core.Task.{Task}
use lac.Store.{Db}
use lac.Store.Tasks
use lac.Store.Tasks.{run_by}

abbrev Left : String → List Task → Db → Type 0
Left worker_id xs s = Remaining (λ t. t.id) (λ t. t.id) (run_by worker_id) xs s.tasks
