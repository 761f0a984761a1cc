-- ===== src/Core/Resource.antt =====
-- internal/core/resource.go: a resource and how much of it is in use.
use lac.Base.{ℕ, ◌-◌, String, ◌||◌, Option, none, some, ℤ, pos, lt_ℤ, le_ℤ, if◌then◌else◌}
use lac.Base.Result.{Error, invalid_argument}
use lac.Core.Time.{Time, Duration}
use lac.Core.Name.{validate_name}

abbrev pub max_capacity : ℕ
max_capacity = 1024

pub record Resource : Type 0 where
  pub name : String
  pub capacity : ℤ
  pub lease_time_to_live : Duration
  pub description : String
  pub created_at : Option Time

unfoldable pub validate : Resource → Option Error
validate r = elim (validate_name r.name) [
  | some e ↦ some e
  | none ↦
      if lt_ℤ r.capacity (pos 1) || lt_ℤ (pos max_capacity) r.capacity
      then some invalid_argument
      else if le_ℤ r.lease_time_to_live (pos 0)
      then some invalid_argument
      else none
]

pub record ResourceStatus : Type 0 where
  pub resource : Resource
  pub active_leases : ℕ
  pub waiting : ℕ

-- The capacity less the leases, and 0 where that is negative.
unfoldable pub free : ResourceStatus → ℕ
free s = elim s.resource.capacity [ pos c ↦ c - s.active_leases | _ ↦ 0 ]
