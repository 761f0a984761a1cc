-- ===== src/Config/Start.antt =====
-- internal/daemon/daemon.go: `defineConfiguredResources`, with which the daemon starts.
use lac.Base.{◌≤◌, String, ◌==◌, Bool, true, List, [], ◌∷◌, ◌≡◌, All, exists, pos_part}
use lac.Base.Result.{Result, ok, err}
use lac.Core.Time.{Time, Duration}
use lac.Core.Resource.{Resource}
use lac.Core.Resource
use lac.Store.{Db, ResourceRow}
use lac.Store.Resources
use lac.Store.Resources.{row_of, upsert}
use lac.Store.Transaction.{in_transaction}
use lac.Config.{Config, ResourceConfig}
use lac.Config.Policy.{resource_of}

abbrev and_go : Result (Unit {0}) × Db → (Db → Result (Unit {0}) × Db) → Result (Unit {0}) × Db
and_go (err e, db) more = (err e, db)
and_go (ok u, db) more = more db

-- The loop of `defineConfiguredResources`, one statement for each resource.
unfoldable pub define_all : Time → Duration → List ResourceConfig → Db → Result (Unit {0}) × Db
unfolding resource_of in_transaction Resources.define
define_all now default_time_to_live [] db = (ok tt, db)
define_all now default_time_to_live (declared ∷ rest) db =
    and_go (in_transaction (Resources.define now (resource_of declared default_time_to_live)) db)
      (λ db'. define_all now default_time_to_live rest db')

-- `defineConfiguredResources`.
unfoldable pub define_configured_resources : Time → Config → Db → Result (Unit {0}) × Db
unfolding define_all
define_configured_resources now c db = define_all now c.default_lease_time_to_live c.resources db

-- The time to live of a declared resource lasts at least a microsecond.
abbrev pub Storable : Duration → ResourceConfig → Type 0
unfolding resource_of
Storable default_time_to_live r =
    1000 ≤ pos_part (resource_of r default_time_to_live).lease_time_to_live

abbrev defined_as : Time → Resource → Db → Db
unfolding Resources.created_or
defined_as now r db = record db {
  resources = upsert (row_of r (Resources.created_or now r.created_at)) db.resources;
}

-- A resource of the name is there.
abbrev named : String → ResourceRow → Bool
named name r = r.name == name

-- Every one of the resources is there.
abbrev pub AllDefined : List ResourceConfig → Db → Type 0
AllDefined declared db = All (λ r. exists (named r.name) db.resources ≡ true) declared
