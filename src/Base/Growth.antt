-- ===== src/Base/Growth.antt =====
-- Tables that only grow: rows stay in place, each related to what it was, and new rows come last.
use lac.Base.Tests.{Bool-cases}
use lac.Base.Lists.{update_where, find}
use mathlib.Core.Path.{◌≡◌, refl}
use mathlib.Core.Bool.{Bool, true}
use mathlib.Core.Logic.{inl, inr}
use mathlib.Core.Option.{some}
use mathlib.Core.List.{List, [], ◌∷◌, ◌++◌}
use native.Mathlib.Omega.{arith}

module _ {ℓ} {A : Type ℓ} (P : A → A → Type 0) where
  abbrev pub Grows : List A → List A → Type 0
  Grows [] ys = Unit
  Grows (x ∷ xs) [] = ⊥
  Grows (x ∷ xs) (y ∷ ys) = P x y × Grows xs ys

  pub Grows-refl : ((x : A) → P x x) → (xs : List A) → Grows xs xs
  Grows-refl r [] = tt
  Grows-refl r (x ∷ xs) = (r x, Grows-refl r xs)

  pub Grows-trans :
      ((x y z : A) → P x y → P y z → P x z)
      → (xs ys zs : List A) → Grows xs ys
      → Grows ys zs
      → Grows xs zs
  Grows-trans t [] ys zs g h = tt
  Grows-trans t (x ∷ xs) [] zs g h = elim g [ ]
  Grows-trans t (x ∷ xs) (y ∷ ys) [] g h = elim h [ ]
  Grows-trans t (x ∷ xs) (y ∷ ys) (z ∷ zs) g h = (t x y z g.0 h.0, Grows-trans t xs ys zs g.1 h.1)

  pub Grows-append : ((x : A) → P x x) → (xs ys : List A) → Grows xs (xs ++ ys)
  Grows-append r [] ys = tt
  Grows-append r (x ∷ xs) ys = (r x, Grows-append r xs ys)

  pub Grows-update_where :
      ((x : A) → P x x)
      → (test : A → Bool) (f : A → A) → ((x : A) → test x ≡ true → P x (f x))
      → (xs : List A) → Grows xs (update_where test f xs)
  unfolding update_where
  Grows-update_where r test f h [] = tt
  Grows-update_where r test f h (x ∷ xs) = elim (Bool-cases (test x)) [
    | inl e ↦ rw e (h x e, Grows-update_where r test f h xs)
    | inr e ↦ rw e (r x, Grows-update_where r test f h xs)
  ]

  -- A row that a lookup by a fixed key finds is found later too, related to what it was.
  pub Grows-find :
      (key : A → Bool)
      → ((x y : A) → P x y → key y ≡ key x)
      → (xs ys : List A) (x : A) → Grows xs ys
      → find key xs ≡ some x
      → (y : A) × (find key ys ≡ some y) × P x y
  unfolding find
  Grows-find key k [] ys x g e = absurd (ground arith)
  Grows-find key k (a ∷ xs) [] x g e = elim g [ ]
  Grows-find key k (a ∷ xs) (b ∷ ys) x g e = elim (Bool-cases (key a)) [
    | inl t ↦
        let same : a ≡ x = ground arith in let t' = k a b g.0 in (b, ground arith, rw (← same) g.0)
    | inr f ↦
        let (y, found, p) = Grows-find key k xs ys x g.1 (ground arith) in
        let f' = k a b g.0 in (y, ground arith, p)
  ]

-- A table whose rows are the same has only gained rows at its end.
pub Grows-same :
    {A : Type 0} (xs ys : List A)
    → Grows {A = A} (λ x y. y ≡ x) xs ys
    → (more : List A) × (ys ≡ xs ++ more)
Grows-same [] ys g = (ys, refl)
Grows-same (x ∷ xs) [] g = elim g [ ]
Grows-same (x ∷ xs) (y ∷ ys) g = let (more, e) = Grows-same xs ys g.1 in (more, cc (g.0, e))
