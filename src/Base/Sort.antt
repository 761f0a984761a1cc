-- ===== src/Base/Sort.antt =====
-- A stable insertion sort, for `ORDER BY`.
use mathlib.Core.Path.{◌≡◌, refl}
use mathlib.Core.Bool.{Bool, true, false}
use mathlib.Core.List.{List, [], ◌∷◌}
use native.Mathlib.Omega.{arith}
use lac.Base.Tests.{if◌then◌else◌, Bool-cases}
use lac.Base.Lists.{All, All-map, count_where}
use mathlib.Core.Logic.{inl, inr}

module _ {ℓ} {A : Type ℓ} (before : A → A → Bool) where
  unfoldable pub insert_sorted : A → List A → List A
  insert_sorted x [] = x ∷ []
  insert_sorted x (y ∷ ys) =
      let rest = insert_sorted x ys in if before y x then y ∷ rest else x ∷ y ∷ ys

  -- Rows that neither comes before the other stay in the order of the table.
  unfoldable pub order_by : List A → List A
  unfolding insert_sorted
  order_by [] = []
  order_by (x ∷ xs) = insert_sorted x (order_by xs)

  -- No element comes before one that stands earlier.
  abbrev pub IsOrdered : List A → Type 0
  IsOrdered [] = Unit
  IsOrdered (x ∷ xs) = All (λ y. before y x ≡ false) xs × IsOrdered xs

  All-insert_sorted {κ} :
      (P : A → Type κ) (x : A) (xs : List A) → P x → All P xs → All P (insert_sorted x xs)
  unfolding insert_sorted
  All-insert_sorted P x [] px a = (px, tt)
  All-insert_sorted P x (y ∷ ys) px a = elim (Bool-cases (before y x)) [
    | inl e ↦ rw e (a.0, All-insert_sorted P x ys px a.1)
    | inr e ↦ rw e (px, a)
  ]

  pub All-order_by {κ} : (P : A → Type κ) (xs : List A) → All P xs → All P (order_by xs)
  unfolding order_by
  All-order_by P [] a = tt
  All-order_by P (x ∷ xs) a = All-insert_sorted P x (order_by xs) a.0 (All-order_by P xs a.1)

  insert_sorted-All :
      (P : A → Type 0) (x : A) (xs : List A) → All P (insert_sorted x xs) → P x × All P xs
  unfolding insert_sorted
  insert_sorted-All P x [] a = a
  insert_sorted-All P x (y ∷ ys) a = elim (Bool-cases (before y x)) [
    | inl e ↦
        let a' : P y × All P (insert_sorted x ys) = rw e at a in
        let (px, rest) = insert_sorted-All P x ys a'.1 in (px, (a'.0, rest))
    | inr e ↦ rw e at a
  ]

  pub order_by-All : (P : A → Type 0) (xs : List A) → All P (order_by xs) → All P xs
  unfolding order_by
  order_by-All P [] a = tt
  order_by-All P (x ∷ xs) a =
      let (px, rest) = insert_sorted-All P x (order_by xs) a in (px, order_by-All P xs rest)

  count_where-insert_sorted :
      (p : A → Bool) (x : A) (xs : List A)
      → count_where p (insert_sorted x xs) ≡ count_where p (x ∷ xs)
  unfolding insert_sorted count_where
  count_where-insert_sorted p x [] = refl
  count_where-insert_sorted p x (y ∷ ys) = ground (arith, count_where-insert_sorted p x ys)

  -- Sorting loses no row and makes none up.
  pub count_where-order_by :
      (p : A → Bool) (xs : List A) → count_where p (order_by xs) ≡ count_where p xs
  unfolding order_by count_where
  count_where-order_by p [] = refl
  count_where-order_by p (x ∷ xs) =
      ground (arith, count_where-insert_sorted p x (order_by xs), count_where-order_by p xs)

  module _ (asymm : (x y : A) → before x y ≡ true → before y x ≡ false)
      (ge_trans : (z y x : A) → before z y ≡ false → before y x ≡ false → before z x ≡ false) where
    insert_sorted-IsOrdered : (x : A) (xs : List A) → IsOrdered xs → IsOrdered (insert_sorted x xs)
    unfolding insert_sorted
    insert_sorted-IsOrdered x [] o = (tt, tt)
    insert_sorted-IsOrdered x (y ∷ ys) o = elim (Bool-cases (before y x)) [
      | inl e ↦ rw e (
        All-insert_sorted (λ z. before z y ≡ false) x ys (asymm y x e) o.0,
        insert_sorted-IsOrdered x ys o.1,
      )
      | inr e ↦ rw e ((e, All-map _ _ ys (λ z h. ge_trans z y x h e) o.0), o)
    ]

    pub order_by-IsOrdered : (xs : List A) → IsOrdered (order_by xs)
    unfolding order_by
    order_by-IsOrdered [] = tt
    order_by-IsOrdered (x ∷ xs) = insert_sorted-IsOrdered x (order_by xs) (order_by-IsOrdered xs)
