-- ===== src/Leasing/Waiters.antt =====
-- service/leasing/waiters.go: one channel for each resource, closed to wake all who wait on it. A
-- channel is a number; `made` is how many were made.
use lac.Base.{ℕ, suc, String, ◌==◌, not, none, some, List, [], ◌∷◌, ◌++◌, map, select, find}

pub record Channel : Type 0 where
  pub resource : String
  pub number : ℕ

pub record Waiters : Type 0 where
  -- The map from resource names to open channels.
  pub channels : List Channel
  pub closed : List ℕ
  pub made : ℕ

abbrev pub new_waiters : Waiters
new_waiters = record { channels = []; closed = []; made = 0 }

unfoldable pub watch : String → Waiters → ℕ × Waiters
watch resource w = elim (find (λ c. c.resource == resource) w.channels) [
  | some c ↦ (c.number, w)
  | none ↦ (
    w.made,
    record w {
      channels = record { resource = resource; number = w.made } ∷ w.channels;
      made = suc w.made;
    },
  )
]

unfoldable pub signal : String → Waiters → Waiters
signal resource w = elim (find (λ c. c.resource == resource) w.channels) [
  | some c ↦ record w {
    channels = select (λ d. not (d.resource == resource)) w.channels;
    closed = c.number ∷ w.closed;
  }
  | none ↦ w
]

unfoldable pub signal_all : Waiters → Waiters
signal_all w = record w { channels = []; closed = map (λ c. c.number) w.channels ++ w.closed }
