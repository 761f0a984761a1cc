-- ===== src/Api/Leases.antt =====
-- internal/api/leases.go: the methods on resources, leases and queues.
use lac.Base.{ℕ, String, Bool, none, List, map, ℤ, if◌then◌else◌}
use lac.Base.Result.{Result, ok, err}
use lac.Core.Time.{Time, Duration}
use lac.Core.Agent.{Agent}
use lac.Core.Lease.{Lease, Priority}
use lac.Auth.Authenticator.{lease, define_resource, force_release}
use lac.Leasing.State.{Service as LeasingService}
use lac.Leasing.Resources
use lac.Leasing.Holding
use lac.Leasing.Acquire.{acquire, Round, Outcome, finished, sleeping}
use lac.Api.State.{Api, Texts, Action, and_then, on_leasing, permit, parse_duration}
use lac.Api.Views.{
  ResourceView, LeaseView, QueueEntryView, HolderView, view_of_resource, view_of_lease,
  views_of_queue, view_of_holder,
}

pub record DefineResourceParams : Type 0 where
  pub name : String
  pub capacity : ℤ
  pub lease_time_to_live : String
  pub description : String

-- The status of a resource, as the answer of several methods.
unfoldable pub shown : Texts → String → Time → Action ResourceView
unfolding on_leasing view_of_resource Resources.status
shown texts name now a =
    and_then (on_leasing (Resources.status name now) a)
      λ status a'. (ok (view_of_resource texts status), a')

unfoldable pub define_as :
    Texts → Agent → DefineResourceParams → Time → Result Duration → Action ResourceView
unfolding on_leasing shown Resources.define
define_as texts caller arguments now (err e) a = (err e, a)
define_as texts caller arguments now (ok time_to_live) a =
    and_then
      (on_leasing
        (Resources.define texts.resource_detail caller.id
          (record {
            name = arguments.name;
            capacity = arguments.capacity;
            lease_time_to_live = time_to_live;
            description = arguments.description;
            created_at = none;
          })
          now)
        a)
      λ _ a'. shown texts arguments.name now a'

-- `handleDefineResource`.
unfoldable pub handle_define_resource :
    Texts → DefineResourceParams → Time → Agent → Action ResourceView
unfolding permit define_as parse_duration
handle_define_resource texts arguments now caller a =
    and_then (permit caller define_resource arguments.name now a) λ _ a'.
      define_as texts caller arguments now (parse_duration texts arguments.lease_time_to_live) a'

-- `handleResourceList`.
unfoldable pub handle_resource_list : Texts → Time → Agent → Action (List ResourceView)
unfolding on_leasing view_of_resource Resources.list
handle_resource_list texts now caller a =
    and_then (on_leasing (Resources.list now) a)
      λ statuses a'. (ok (map (view_of_resource texts) statuses), a')

-- `handleResourceStatus`.
unfoldable pub handle_resource_status : Texts → String → Time → Agent → Action ResourceView
unfolding shown
handle_resource_status texts resource now caller = shown texts resource now

pub record AcquireParams : Type 0 where
  pub resource : String
  pub priority : Priority
  pub reason : String
  pub metadata : List ℕ
  pub no_wait : Bool
  pub timeout : String

-- What the method answers: the acquire may still be waiting when the rounds end.
pub data Acquired : Type 0 where
  answered : Result LeaseView → Acquired
  waiting : Acquired

abbrev seen : Texts → Result Lease → Result LeaseView
unfolding view_of_lease
seen texts (ok l) = ok (view_of_lease texts l)
seen texts (err e) = err e

abbrev came_to : Texts → Api → Outcome × LeasingService → Acquired × Api
unfolding seen
came_to texts a (finished r, s) = (answered (seen texts r), record a { db = s.db; leasing = s })
came_to texts a (sleeping, s) = (waiting, record a { db = s.db; leasing = s })

abbrev acquire_within :
    Texts
    → Agent
    → AcquireParams
    → String
    → Time
    → List Round
    → Time
    → Result Duration
    → Api
    → Acquired × Api
unfolding came_to acquire
acquire_within texts caller arguments entry_id now rounds later (err e) a = (answered (err e), a)
acquire_within texts caller arguments entry_id now rounds later (ok timeout) a = came_to texts a (
    acquire
      (record {
        agent_id = caller.id;
        resource_name = arguments.resource;
        priority = arguments.priority;
        reason = arguments.reason;
        metadata = arguments.metadata;
        no_wait = arguments.no_wait;
      })
      entry_id now rounds later (record a.leasing { db = a.db }))

abbrev acquire_permitted :
    Texts
    → Agent
    → AcquireParams
    → String
    → Time
    → List Round
    → Time
    → Result (Unit {0}) × Api
    → Acquired × Api
unfolding acquire_within parse_duration
acquire_permitted texts caller arguments entry_id now rounds later (err e, a) =
    (answered (err e), a)
acquire_permitted texts caller arguments entry_id now rounds later (ok u, a) =
    acquire_within texts caller arguments entry_id now rounds later
      (parse_duration texts arguments.timeout) a

-- `handleAcquire`. The timeout ends the context of the acquire: it is one of the reasons for which a
-- round wakes.
unfoldable pub handle_acquire :
    Texts → AcquireParams → String → Time → List Round → Time → Agent → Api → Acquired × Api
unfolding permit acquire_permitted
handle_acquire texts arguments entry_id now rounds later caller a =
    acquire_permitted texts caller arguments entry_id now rounds later
      (permit caller lease arguments.resource now a)

-- `handleRenew`.
unfoldable pub handle_renew : Texts → String → Time → Agent → Action LeaseView
unfolding on_leasing view_of_lease Holding.renew
handle_renew texts lease_id now caller a =
    and_then (on_leasing (Holding.renew caller.id lease_id now) a)
      λ l a'. (ok (view_of_lease texts l), a')

-- `handleRelease`.
unfoldable pub handle_release : String → Bool → Time → Agent → Action (Unit {0})
unfolding on_leasing permit Holding.release Holding.force_release
handle_release lease_id force now caller a =
    if force
    then and_then (permit caller force_release "" now a)
        (λ _ a'. on_leasing (Holding.force_release caller.id lease_id now) a')
    else on_leasing (Holding.release caller.id lease_id now) a

-- `handleHeld`.
unfoldable pub handle_held : Texts → Time → Agent → Action (List LeaseView)
unfolding on_leasing view_of_lease Resources.held
handle_held texts now caller a =
    and_then (on_leasing (Resources.held caller.id now) a)
      λ leases a'. (ok (map (view_of_lease texts) leases), a')

pub record QueueStatus : Type 0 where
  pub resource : ResourceView
  pub holders : List HolderView
  pub waiting_entries : List QueueEntryView

-- `handleQueueStatus`, whose statements are not one transaction.
unfoldable pub handle_queue_status : Texts → String → Time → Agent → Action QueueStatus
unfolding on_leasing shown views_of_queue view_of_holder Resources.queue Resources.holders
handle_queue_status texts resource now caller a = and_then (shown texts resource now a) λ status a1.
    and_then (on_leasing (Resources.queue resource) a1) λ entries a2.
      and_then (on_leasing (Resources.holders resource now) a2) λ holdings a3. (
        ok (record {
          resource = status;
          holders = map (view_of_holder texts a3.db) holdings;
          waiting_entries = views_of_queue texts a2.db 0 entries;
        }),
        a3,
      )

-- `handleQueueCancel`.
unfoldable pub handle_queue_cancel : String → Bool → Time → Agent → Action (Unit {0})
unfolding on_leasing permit Holding.cancel Holding.force_cancel
handle_queue_cancel entry_id force now caller a =
    if force
    then and_then (permit caller force_release "" now a)
        (λ _ a'. on_leasing (Holding.force_cancel caller.id entry_id now) a')
    else on_leasing (Holding.cancel caller.id entry_id now) a
