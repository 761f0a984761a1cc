-- ===== src/Registry/Tests.antt =====
-- The registry's theorems at a small example: alice, who registers again from her own process, and
-- bob, who went quiet.
use lac.Base.{
  ◌*◌, true, List, [], ◌∷◌, ◌≡◌, refl, pos, find, exists, update_where, count_where, select,
  order_by,
}
use lac.Base.Result.{Result, ok, run_tx}
use lac.Core.Name.{codes, validate_name}
use lac.Core.Syntax.{accepts, is_name, names_are_short_and_plain}
use lac.Core.Agent.{Agent, validate}
use lac.Store.{Db}
use lac.Store.Agents
use lac.Store.Agents.{live_as, scan_agent, silent_since, clash, by_heartbeat, state_row, row_of}
use lac.Store.AuditLog.{append}
use lac.Leasing.Example.{idle_db, agent_row, second}
use lac.Registry.State.{Service, new, run, audit}
use lac.Registry.Roster.{
  register_tx, settle, find_live, same_process, reap_stale, mark_stale, absent_is_none,
}
use lac.Registry.Names.{live_name_belongs_to_its_process}

abbrev again : Agent
again = record (scan_agent (agent_row "alice")) {
  id = "a2";
  workdir = "/elsewhere";
  registered_at = second;
  last_heartbeat_at = second;
}

abbrev kept : Agent
kept = record again { id = "alice"; registered_at = 0 }

abbrev registered : Result (Agent × Db)
registered = register_tx again idle_db

abbrev registered_db : Db
registered_db = record idle_db { agents = row_of kept ∷ agent_row "bob" ∷ [] }

is_registered : register_tx again idle_db ≡ ok (kept, registered_db)
unfolding run_tx register_tx settle find_live absent_is_none reap_stale mark_stale new run audit
    append Agents.by_name Agents.update Agents.set_state Agents.write_agents Agents.stale_before
    live_as scan_agent silent_since clash state_row row_of find exists update_where count_where
    select order_by validate validate_name
is_registered = refl

live_name_belongs_to_its_process_example :
    (same_process (pos 7) (pos 7) ≡ true)
    × (kept ≡ record again { id = "alice"; registered_at = 0 })
unfolding run_tx register_tx settle find_live absent_is_none reap_stale mark_stale new run audit
    append Agents.by_name Agents.update Agents.set_state Agents.write_agents Agents.stale_before
    live_as scan_agent silent_since clash state_row row_of find exists update_where count_where
    select order_by validate validate_name
live_name_belongs_to_its_process_example =
    live_name_belongs_to_its_process again kept idle_db registered_db (agent_row "alice") refl
      is_registered

abbrev quiet : Service
quiet = new idle_db (record {
  time_to_live = pos 0;
  workdir_roots = [];
  capabilities_for = λ _. (agent_row "alice").capabilities;
})

abbrev reaped : Result (List Agent) × Service
reaped = reap_stale (λ _. "silent") (100 * second) quiet

abbrev reaped_agents : List Agent
reaped_agents = scan_agent (agent_row "alice") ∷ scan_agent (agent_row "bob") ∷ []

names_are_short_and_plain_example : accepts "web-1" ≡ is_name (codes "web-1")
names_are_short_and_plain_example = names_are_short_and_plain "web-1"
