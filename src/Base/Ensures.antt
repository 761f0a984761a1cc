-- ===== src/Base/Ensures.antt =====
-- Relations between the state before and the state after a statement: one rule for each way to
-- build a statement, for a relation that is reflexive and transitive.
use lac.Base.Tests.{if◌then◌else◌}
use lac.Base.Result.{
  Tx, Result, ok, err, Error, ◌>>=◌, return, fail, require, or_fail, check, query, exec, for_each,
}
use mathlib.Core.Path.{◌≡◌, refl, subst, ap}
use mathlib.Core.Bool.{Bool, true, false}
use mathlib.Core.Option.{Option, none, some}
use mathlib.Core.List.{List, [], ◌∷◌}
use Prim.Native.Nat.{ℕ, suc}
use native.Mathlib.Omega.{arith}

-- Whatever a successful run leaves is related to what it found.
pub record Ensures {S A : Type 0} (R : S → S → Type 0) (m : Tx S A) : Type 0 where
  pub at : (s s' : S) (a : A) → m s ≡ ok (a, s') → R s s'

pub record IsPreorder {S : Type 0} (R : S → S → Type 0) : Type 0 where
  pub rel_refl : (s : S) → R s s
  pub rel_trans : (s t u : S) → R s t → R t u → R s u

-- The state that a successful run left.
abbrev state_or : {S A : Type 0} → S → Result (A × S) → S
state_or s (ok (a, s')) = s'
state_or s (err e) = s

-- A statement that leaves the state alone.
pub record Reads {S A : Type 0} (m : Tx S A) : Type 0 where
  pub same : (s s' : S) (a : A) → m s ≡ ok (a, s') → s' ≡ s

module _ {S A : Type 0} where
  pub Reads-return : (a : A) → Reads {S = S} (return a)
  unfolding return
  Reads-return a = record { same = λ s s' b h. ground arith }

  pub Reads-fail : (e : Error) → Reads {S = S} {A = A} (fail e)
  unfolding fail
  Reads-fail e = record { same = λ s s' b h. ground arith }

  pub Reads-or_fail : (o : Option A) (e : Error) → Reads {S = S} (or_fail o e)
  unfolding or_fail
  Reads-or_fail none e = record { same = λ s s' b h. ground arith }
  Reads-or_fail (some a) e = record { same = λ s s' b h. ground arith }

  pub Reads-query : (f : S → A) → Reads (query f)
  unfolding query
  Reads-query f = record { same = λ s s' b h. ground arith }

module _ {S : Type 0} where
  pub Reads-require : (b : Bool) (e : Error) → Reads {S = S} (require b e)
  unfolding require
  Reads-require true e = record { same = λ s s' b h. ground arith }
  Reads-require false e = record { same = λ s s' b h. ground arith }

  pub Reads-check : (o : Option Error) → Reads {S = S} (check o)
  unfolding check
  Reads-check none = record { same = λ s s' b h. ground arith }
  Reads-check (some e) = record { same = λ s s' b h. ground arith }

module _ {S A B : Type 0} where
  -- What a successful sequence did: its first part, then its second.
  pub bind_cases :
      (m : Tx S A) (f : A → Tx S B) (s u : S) (b : B)
      → (m >>= f) s ≡ ok (b, u)
      → (a : A) × (t : S) × (m s ≡ ok (a, t)) × (f a t ≡ ok (b, u))
  unfolding ◌>>=◌
  bind_cases m f s u b h = go (m s) refl
    where
      go :
          (r : Result (A × S))
          → m s ≡ r
          → (a : A) × (t : S) × (m s ≡ ok (a, t)) × (f a t ≡ ok (b, u))
      go (ok (a, t)) e = (a, t, e, ground arith)
      go (err x) e = absurd (ground arith)

  pub Reads-bind :
      (m : Tx S A) (f : A → Tx S B) → Reads m → ((a : A) → Reads (f a)) → Reads (m >>= f)
  Reads-bind m f rm rf = record {
    same = λ s u b h.
        let (a, t, e, k) = bind_cases m f s u b h in
        ground (arith, rm.same s t a e, (rf a).same t u b k);
  }

module _ {S A : Type 0} {R : S → S → Type 0} where
  pub Ensures-Reads : (m : Tx S A) → IsPreorder R → Reads m → Ensures R m
  Ensures-Reads m p r = record { at = λ s s' a h. rw (r.same s s' a h) (p.rel_refl s) }

  pub Ensures-if :
      (b : Bool) (m n : Tx S A) → Ensures R m → Ensures R n → Ensures R (if b then m else n)
  Ensures-if true m n em en = em
  Ensures-if false m n em en = en

module _ {S A B : Type 0} {R : S → S → Type 0} where
  pub Ensures-bind :
      (m : Tx S A) (f : A → Tx S B)
      → IsPreorder R
      → Ensures R m
      → ((a : A) → Ensures R (f a))
      → Ensures R (m >>= f)
  Ensures-bind m f p em ef = record {
    at = λ s u b h.
        let (a, t, e, k) = bind_cases m f s u b h in
        p.rel_trans s t u (em.at s t a e) ((ef a).at t u b k);
  }

module _ {S : Type 0} {R : S → S → Type 0} where
  pub Ensures-exec : (f : S → S) → ((s : S) → R s (f s)) → Ensures R (exec f)
  unfolding exec
  Ensures-exec f h = record { at = λ s s' a e. subst (R s) (ap (state_or (f s)) e) (h s) }

module _ {S A : Type 0} {R : S → S → Type 0} where
  for_each_at :
      (body : A → Tx S (Unit {0}))
      → IsPreorder R
      → ((x : A) → Ensures R (body x))
      → (xs : List A) (s u : S) (n : ℕ) → for_each body xs s ≡ ok (n, u)
      → R s u
  unfolding for_each return
  for_each_at body p h [] s u n e = subst (R s) (ap (state_or s) e) (p.rel_refl s)
  for_each_at body p h (x ∷ xs) s u n e =
      let (_, t, first, rest) = bind_cases (body x) _ s u n e in
      let (m, t', more, last) = bind_cases (for_each body xs) (λ k. return (suc k)) t u n rest in
      p.rel_trans s t u ((h x).at s t tt first)
        (subst (R t) (ap (state_or t') last) (for_each_at body p h xs t t' m more))

  pub Ensures-for_each :
      (body : A → Tx S (Unit {0})) (xs : List A)
      → IsPreorder R
      → ((x : A) → Ensures R (body x))
      → Ensures R (for_each body xs)
  Ensures-for_each body xs p h = record { at = λ s u n e. for_each_at body p h xs s u n e }

pub ruleset reads_rules =
    (Reads-return, Reads-fail, Reads-or_fail, Reads-query, Reads-require, Reads-check, Reads-bind)

pub ruleset ensures_rules = (reads_rules, Ensures-Reads, Ensures-if, Ensures-bind, Ensures-for_each)
