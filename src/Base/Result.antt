-- ===== src/Base/Result.antt =====
-- The domain errors of core/errors.go, and the two monads of the storage layer: a statement inside
-- a transaction, which reads and writes a state or fails, and an action of a service, which keeps
-- its state also when it fails.
use mathlib.Core.Bool.{Bool, true, false}
use mathlib.Core.Option.{Option, none, some}
use mathlib.Core.List.{List, [], ◌∷◌}
use Prim.Native.Nat.{ℕ, suc}

-- The sentinel errors; `context_done` is the error of a caller's own finished context.
pub data Error : Type 0 where
  not_found already_exists invalid_argument unauthorised capacity_reached conflict : Error
  context_done : Error

pub data Result {ℓ} (A : Type ℓ) : Type ℓ where
  ok : A → Result A
  err : Error → Result A

-- A statement of a transaction: what it returns and the state it leaves, or the error it stops with.
abbrev pub Tx : Type 0 → Type 0 → Type 0
Tx S A = S → Result (A × S)

infixl 5 ◌>>=◌ ◌>>◌
unfoldable pub ◌>>=◌ : {S A B : Type 0} → Tx S A → (A → Tx S B) → Tx S B
◌>>=◌ m f s = elim (m s) [ ok (a, s') ↦ f a s' | err e ↦ err e ]

abbrev pub ◌>>◌ : {S A B : Type 0} → Tx S A → Tx S B → Tx S B
m >> k = m >>= λ _. k

unfoldable pub return : {S A : Type 0} → A → Tx S A
return a s = ok (a, s)

unfoldable pub fail : {S A : Type 0} → Error → Tx S A
fail e s = err e

-- Stops with the error unless the test holds.
unfoldable pub require : {S : Type 0} → Bool → Error → Tx S (Unit {0})
require true e s = ok (tt, s)
require false e s = err e

-- The one value that a query found, or an error.
unfoldable pub or_fail : {S A : Type 0} → Option A → Error → Tx S A
or_fail none e s = err e
or_fail (some a) e s = ok (a, s)

-- A check that returns Go's `error`: `none` is nil.
unfoldable pub check : {S : Type 0} → Option Error → Tx S (Unit {0})
check none s = ok (tt, s)
check (some e) s = err e

-- A query: it reads the state and changes nothing.
unfoldable pub query : {S A : Type 0} → (S → A) → Tx S A
query f s = ok (f s, s)

-- A statement that writes.
unfoldable pub exec : {S : Type 0} → (S → S) → Tx S (Unit {0})
exec f s = ok (tt, f s)

-- `for _, x := range xs { ... }` with an early return on an error; it counts the rounds.
unfoldable pub for_each : {S A : Type 0} → (A → Tx S (Unit {0})) → List A → Tx S ℕ
unfolding ◌>>=◌ return
for_each body [] = return 0
for_each body (x ∷ xs) = do body x; n ← for_each body xs; return (suc n)

-- A statement run at a state. A proof that computes with statements unfolds this, and so all above.
unfoldable pub run_tx : {S A : Type 0} → Tx S A → S → Result (A × S)
unfolding ◌>>=◌ return for_each fail require or_fail check query exec
run_tx m s = m s
