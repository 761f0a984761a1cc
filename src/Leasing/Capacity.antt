-- ===== src/Leasing/Capacity.antt =====
-- The capacity of a resource is never exceeded: the count of active leases under every history.
pub mod History
use lac.Base.{
  ℕ, zero, suc, ◌+◌, ◌≤◌, ◌<◌, String, ◌==◌, Bool, true, false, Option, none, some, List, [], ◌∷◌,
  ◌++◌, ◌≡◌, refl, inl, inr, ℤ, pos, negsuc, le_ℤ, lt_ℤ, arith, eq_iff, count_where,
  count_where-append, All, All-update_where, All-find, All-append, find-test, find, Bool-cases,
  exists, if◌then◌else◌, leb,
}
use lac.Base.Result.{Tx, Result, ok, err, ◌>>=◌, ◌>>◌, run_tx}
use lac.Base.Ensures.{Ensures, IsPreorder, ensures_rules, Ensures-exec}
use lac.Core.Time.{Time}
use lac.Core.Resource.{Resource, validate}
use lac.Core.Lease.{Lease, QueueEntry}
use lac.Store.{Db, ResourceRow, scan_resource}
use lac.Store.Resources
use lac.Store.Leases
use lac.Store.Leases.{count_active, active_on}
use lac.Store.Slots.{Frees, count_active_mono}
use lac.Leasing.Grant.{try_grant_tx, lease_for}
use lac.Leasing.GrantCases.{Granting, try_grant_cases, grant_effect, granted_db}

-- Every definition of the resource has at most `bound` slots, and no more are taken.
pub record Fits (bound : ℕ) (n : String) (clock : Time) (s : Db) : Type 0 where
  pub limits : All (λ r. (r.name == n) ≡ true → r.capacity ≤ bound) s.resources
  pub within : count_active n clock s ≤ bound

Frees-Fits :
    (bound : ℕ) (n : String) (clock now : Time) (s t : Db)
    → clock ≤ now
    → Frees now s t
    → Fits bound n clock s
    → Fits bound n now t
Frees-Fits bound n clock now s t le f h = record {
  limits = rw f.resources h.limits;
  within =
      omega (arith, f.counts n now (omega arith), count_active_mono n clock now s le, h.within);
}

Fits-later :
    (bound : ℕ) (n : String) (clock now : Time) (s : Db)
    → clock ≤ now
    → Fits bound n clock s
    → Fits bound n now s
Fits-later bound n clock now s le h = record {
  limits = h.limits;
  within = omega (arith, count_active_mono n clock now s le, h.within);
}

-- One more lease takes at most one more slot, of its own resource.
count-granted :
    (entry : QueueEntry) (r : Resource) (lease : Lease) (now : Time) (n : String) (s : Db)
    → count_active n now (granted_db entry r lease now s)
      ≤ (if lease.resource_name == n then suc (count_active n now s) else count_active n now s)
unfolding count_active count_where active_on Leases.row_of
count-granted entry r lease now n s =
    ground (arith, count_where-append (active_on n now) s.leases (Leases.row_of lease ∷ []))

-- Where the resource had room, it fits one more.
room_left :
    (bound : ℕ) (n : String) (now : Time) (r : ResourceRow) (s : Db)
    → count_active r.name now s < r.capacity
    → ((r.name == n) ≡ true → r.capacity ≤ bound)
    → ((scan_resource r).name == n) ≡ true
    → count_active n now s < bound
unfolding scan_resource
room_left bound n now r s room limit e =
    let same : r.name ≡ n = (eq_iff r.name n).0 e in rw (← same) (omega (arith, limit e))

granted-within :
    (bound : ℕ) (n : String) (now : Time) (entry : QueueEntry) (r : Resource) (lease : Lease)
    (s : Db) {before : ℕ}
    → ((lease.resource_name == n) ≡ true → count_active n now s < bound)
    → count_active n now s ≤ before
    → before ≤ bound
    → count_active n now (granted_db entry r lease now s) ≤ bound
granted-within bound n now entry r lease s room le within =
    ground (arith, count-granted entry r lease now n s)

try_grant-Fits :
    (entry : QueueEntry) (metadata : List ℕ) (lease_id : String) (bound : ℕ) (n : String)
    (clock now : Time) (s t : Db) (result : Option Lease)
    → clock ≤ now
    → try_grant_tx entry metadata lease_id now s ≡ ok (result, t)
    → Fits bound n clock s
    → Fits bound n now t
unfolding lease_for
try_grant-Fits entry metadata lease_id bound n clock now s t result le e h =
    elim (try_grant_cases entry metadata lease_id now s t result e) [
      | inl (_, same) ↦ rw same (Fits-later bound n clock now s le h)
      | inr g ↦
          let limit = All-find _ _ s.resources g.resource h.limits g.defined in
          let lease = lease_for entry (scan_resource g.resource) metadata lease_id now in
          let (_, done, _, _) =
            grant_effect entry (scan_resource g.resource) lease now s t result g.writes in
          record {
            limits = rw done h.limits;
            within = rw done (
                granted-within bound n now entry (scan_resource g.resource) lease s
                  (room_left bound n now g.resource s g.room limit)
                  (count_active_mono n clock now s le) h.within);
          }
    ]
