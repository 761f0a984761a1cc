-- ===== src/Registry/Silence.antt =====
-- Agents that went quiet.
use lac.Base.{List}
use lac.Base.Loops.{Remaining}
use lac.Base.Result.{Result}
use lac.Core.Time.{Time}
use lac.Core.Agent.{Agent}
use lac.Store.{AgentRow}
use lac.Store.Agents
use lac.Store.Agents.{silent_since}

abbrev Silent : Time → List Agent → List AgentRow → Type 0
Silent cutoff xs rows = Remaining (λ a. a.id) (λ a. a.id) (silent_since cutoff) xs rows
