-- ===== src/Registry/Names.antt =====
-- Who may have which name.
use lac.Base.{String, true, some, ◌≡◌, arith, find}
use lac.Base.Result.{ok, already_exists, return, require, run_tx}
use lac.Base.Ensures.{bind_cases}
use lac.Core.Agent.{Agent}
use lac.Store.{Db, AgentRow}
use lac.Store.Agents
use lac.Store.Agents.{live_as, scan_agent, clash}
use lac.Registry.Roster.{register_tx, settle, find_live, same_process}

find_live-found :
    (name : String) (s : Db) (r : AgentRow)
    → find (live_as name) s.agents ≡ some r
    → find_live name s ≡ ok (some (scan_agent r), s)
unfolding find_live Agents.by_name run_tx
find_live-found name s r h = ground arith

settled-same :
    (agent existing kept : Agent) (s t : Db)
    → settle agent (some existing) s ≡ ok (kept, t)
    → (same_process existing.process_id agent.process_id ≡ true)
      × (kept ≡ record agent { id = existing.id; registered_at = existing.registered_at })
unfolding settle return
settled-same agent existing kept s t h =
    let (_, s1, asked, h1) = bind_cases (require _ already_exists) _ s t kept h in
    let (_, s2, updated, last) = bind_cases (Agents.update _) _ s1 t kept h1 in
    (unfold require in ground arith, ground arith)

-- A name belongs to one live process: when a registration under the name of a live agent succeeds, it
-- is by the process of that agent, and it keeps the identity and the time of the first registration.
pub live_name_belongs_to_its_process :
    (agent kept : Agent) (s t : Db) (r : AgentRow)
    → find (live_as agent.name) s.agents ≡ some r
    → register_tx agent s ≡ ok (kept, t)
    → (same_process r.process_id agent.process_id ≡ true)
      × (kept ≡ record agent { id = r.id; registered_at = (scan_agent r).registered_at })
unfolding register_tx
live_name_belongs_to_its_process agent kept s t r found h =
    let (existing, s', looked, h1) = bind_cases (find_live agent.name) _ s t kept h in
    let same : existing ≡ some (scan_agent r) =
      ground (arith, find_live-found agent.name s r found) in
    unfold scan_agent in settled-same agent (scan_agent r) kept s' t (rw same at h1)
