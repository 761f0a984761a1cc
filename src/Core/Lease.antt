-- ===== src/Core/Lease.antt =====
-- internal/core/resource.go: places in a queue and granted slots.
use lac.Base.{
  ℕ, String, ◌==◌, Bool, true, false, not, ◌&&◌, Option, none, some, List, ℤ, pos, negsuc, ltb,
  if◌then◌else◌,
}
use lac.Base.Result.{Error, invalid_argument}
use lac.Core.Time.{Time}
use lac.Core.Name.{validate_name}

pub data QueueEntryState : Type 0 where
  waiting granted cancelled expired : QueueEntryState

pub QueueEntryState-discrete : Discrete QueueEntryState
QueueEntryState-discrete = hlevel

abbrev pub is_waiting : QueueEntryState → Bool
is_waiting waiting = true
is_waiting granted = false
is_waiting cancelled = false
is_waiting expired = false

-- `Terminal`: every state but `waiting`.
abbrev pub terminal : QueueEntryState → Bool
terminal s = not (is_waiting s)

abbrev pub Priority : Type 0
Priority = ℤ

abbrev pub priority_background : Priority
priority_background = negsuc 9

abbrev pub priority_normal : Priority
priority_normal = pos 0

abbrev pub priority_interactive : Priority
priority_interactive = pos 10

pub record QueueEntry : Type 0 where
  pub id : String
  pub resource_name : String
  pub agent_id : String
  pub priority : Priority
  pub reason : String
  pub state : QueueEntryState
  pub requested_at : Time
  pub resolved_at : Option Time

-- `Validate`. Every value of `QueueEntryState` is one that the domain defines.
unfoldable pub validate : QueueEntry → Option Error
validate q = if q.id == "" then some invalid_argument else elim (validate_name q.resource_name) [
  | some e ↦ some e
  | none ↦ if q.agent_id == "" then some invalid_argument else none
]

pub record Lease : Type 0 where
  pub id : String
  pub resource_name : String
  pub agent_id : String
  pub queue_entry_id : String
  pub acquired_at : Time
  pub expires_at : Time
  pub released_at : Option Time
  pub metadata : List ℕ

abbrev pub is_zero : Option Time → Bool
is_zero none = true
is_zero (some t) = false

-- `Active`: the lease still occupies a slot at the given instant.
unfoldable pub active : Lease → Time → Bool
active l at = is_zero l.released_at && ltb at l.expires_at

-- `Expired`: the lease ran out without being released or renewed.
unfoldable pub has_expired : Lease → Time → Bool
has_expired l at = is_zero l.released_at && not (ltb at l.expires_at)
