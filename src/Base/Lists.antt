-- ===== src/Base/Lists.antt =====
-- Lists as tables: counting, selecting and updating the rows that pass a test.
use Prim.Native.Nat.{ℕ, zero, suc, ◌+◌, ◌≤◌}
use mathlib.Core.Path.{◌≡◌, refl, subst}
use mathlib.Core.Bool.{Bool, true, false}
use mathlib.Core.Option.{Option, none, some}
use mathlib.Core.Logic.{inl, inr}
use mathlib.Core.List.{List, [], ◌∷◌, ◌++◌}
use native.Mathlib.Omega.{arith}
use lac.Base.Tests.{if◌then◌else◌, Bool-cases}

module _ {ℓ} {A : Type ℓ} where
  abbrev pub length : List A → ℕ
  length [] = 0
  length (x ∷ xs) = suc (length xs)

  -- `SELECT count(*) FROM rows WHERE p`.
  unfoldable pub count_where : (A → Bool) → List A → ℕ
  count_where p [] = 0
  count_where p (x ∷ xs) = let rest = count_where p xs in if p x then suc rest else rest

  -- `SELECT * FROM rows WHERE p`, in the order of the table.
  unfoldable pub select : (A → Bool) → List A → List A
  select p [] = []
  select p (x ∷ xs) = let rest = select p xs in if p x then x ∷ rest else rest

  -- `SELECT * FROM rows WHERE p LIMIT 1`.
  unfoldable pub find : (A → Bool) → List A → Option A
  find p [] = none
  find p (x ∷ xs) = let rest = find p xs in if p x then some x else rest

  -- `UPDATE rows SET ... WHERE p`.
  unfoldable pub update_where : (A → Bool) → (A → A) → List A → List A
  update_where p f [] = []
  update_where p f (x ∷ xs) = (if p x then f x else x) ∷ update_where p f xs

  -- Whether some row passes the test.
  unfoldable pub exists : (A → Bool) → List A → Bool
  exists p [] = false
  exists p (x ∷ xs) = let rest = exists p xs in if p x then true else rest

  -- Every element has the property.
  abbrev pub All {κ} : (A → Type κ) → List A → Type κ
  All P [] = Unit
  All P (x ∷ xs) = P x × All P xs

module _ {ℓ} {A : Type ℓ} where
  pub count_where_mono :
      (p q : A → Bool) (xs : List A)
      → ((x : A) → p x ≡ true → q x ≡ true)
      → count_where p xs ≤ count_where q xs
  unfolding count_where
  count_where_mono p q [] h = omega arith
  count_where_mono p q (x ∷ xs) h = ground (arith, h x, count_where_mono p q xs h)

  -- An update whose result passes `p` only where the row passed `q` adds nothing to the count.
  pub count_where-update_where-le :
      (p q test : A → Bool) (f : A → A) (xs : List A)
      → ((x : A) → p x ≡ true → q x ≡ true)
      → ((x : A) → test x ≡ true → p (f x) ≡ true → q x ≡ true)
      → count_where p (update_where test f xs) ≤ count_where q xs
  unfolding count_where update_where
  count_where-update_where-le p q test f [] h k = omega arith
  count_where-update_where-le p q test f (x ∷ xs) h k =
      ground (arith, h x, k x, count_where-update_where-le p q test f xs h k)

  pub count_where-append :
      (p : A → Bool) (xs ys : List A)
      → count_where p (xs ++ ys) ≡ count_where p xs + count_where p ys
  unfolding count_where
  count_where-append p [] ys = omega arith
  count_where-append p (x ∷ xs) ys = ground (arith, count_where-append p xs ys)

  pub All-map {κ μ} :
      (P : A → Type κ) (Q : A → Type μ) (xs : List A) → ((x : A) → P x → Q x) → All P xs → All Q xs
  All-map P Q [] h a = tt
  All-map P Q (x ∷ xs) h a = (h x a.0, All-map P Q xs h a.1)

  pub All-append {κ} : (P : A → Type κ) (xs ys : List A) → All P xs → All P ys → All P (xs ++ ys)
  All-append P [] ys a b = b
  All-append P (x ∷ xs) ys a b = (a.0, All-append P xs ys a.1 b)

  pub find-test : (p : A → Bool) (xs : List A) {x : A} → find p xs ≡ some x → p x ≡ true
  unfolding find
  find-test p [] h = ground arith
  find-test p (y ∷ ys) {x} h = ground (arith, find-test p ys {x = x})

module _ {ℓ} {A : Type ℓ} where
  pub All-update_where {κ} :
      (P : A → Type κ) (test : A → Bool) (f : A → A) (xs : List A)
      → ((x : A) → test x ≡ true → P x → P (f x))
      → All P xs
      → All P (update_where test f xs)
  unfolding update_where
  All-update_where P test f [] h a = tt
  All-update_where P test f (x ∷ xs) h a = elim (Bool-cases (test x)) [
    | inl e ↦ rw e (h x e a.0, All-update_where P test f xs h a.1)
    | inr e ↦ rw e (a.0, All-update_where P test f xs h a.1)
  ]

  -- A row that a query finds has what all rows have.
  pub All-find {κ} :
      (P : A → Type κ) (p : A → Bool) (xs : List A) (x : A) → All P xs → find p xs ≡ some x → P x
  unfolding find
  All-find P p [] x a e = absurd (ground arith)
  All-find P p (y ∷ ys) x a e = elim (Bool-cases (p y)) [
    | inl t ↦ let same : y ≡ x = ground arith in subst P same a.0
    | inr f ↦ All-find P p ys x a.1 (rw f at e)
  ]

  pub All-select : (p : A → Bool) (xs : List A) → All (λ x. p x ≡ true) (select p xs)
  unfolding select
  All-select p [] = tt
  All-select p (x ∷ xs) = elim (Bool-cases (p x)) [
    | inl e ↦ rw e (e, All-select p xs)
    | inr e ↦ rw e (All-select p xs)
  ]

  -- A row that is found and passes another test is a row that passes it.
  pub exists-find :
      (p q : A → Bool) (xs : List A) (x : A) → find p xs ≡ some x → q x ≡ true → exists q xs ≡ true
  unfolding find exists
  exists-find p q [] x e h = absurd (ground arith)
  exists-find p q (y ∷ ys) x e h = ground (arith, exists-find p q ys x)

module _ {ℓ} {A : Type ℓ} where
  pub count_where-none : (p : A → Bool) (xs : List A) → exists p xs ≡ false → count_where p xs ≡ 0
  unfolding count_where exists
  count_where-none p [] h = refl
  count_where-none p (x ∷ xs) h = ground (arith, count_where-none p xs)

  pub count_where-exists :
      (p : A → Bool) (xs : List A) → exists p xs ≡ true → suc zero ≤ count_where p xs
  unfolding count_where exists
  count_where-exists p [] h = ground arith
  count_where-exists p (x ∷ xs) h = ground (arith, count_where-exists p xs)

  pub exists-count_where :
      (p : A → Bool) (xs : List A) → suc zero ≤ count_where p xs → exists p xs ≡ true
  unfolding count_where exists
  exists-count_where p [] h = ground arith
  exists-count_where p (x ∷ xs) h = ground (arith, exists-count_where p xs)

  -- An update that keeps what the test reads keeps the count.
  pub count_where-update_where-same :
      (p test : A → Bool) (f : A → A) (xs : List A)
      → ((x : A) → p (f x) ≡ p x)
      → count_where p (update_where test f xs) ≡ count_where p xs
  unfolding count_where update_where
  count_where-update_where-same p test f [] h = refl
  count_where-update_where-same p test f (x ∷ xs) h =
      ground (arith, h x, count_where-update_where-same p test f xs h)
