-- ===== src/Base/Rows.antt =====
-- What inserting, updating and deleting rows does to the queries `exists` and `select`.
use mathlib.Core.Path.{◌≡◌, refl}
use mathlib.Core.Bool.{Bool, true, false, ◌||◌, ◌&&◌}
use mathlib.Core.List.{List, [], ◌∷◌, ◌++◌, map}
use native.Mathlib.Omega.{arith}
use lac.Base.Lists.{select, exists, update_where}
use lac.Base.Tests.{if◌then◌else◌}

module _ {ℓ} {A : Type ℓ} where
  pub exists-append :
      (p : A → Bool) (xs ys : List A) → exists p (xs ++ ys) ≡ (exists p xs || exists p ys)
  unfolding exists
  exists-append p [] ys = ground arith
  exists-append p (x ∷ xs) ys = ground (arith, exists-append p xs ys)

  pub exists-update_where-same :
      (p test : A → Bool) (f : A → A) (xs : List A)
      → ((x : A) → p (f x) ≡ p x)
      → exists p (update_where test f xs) ≡ exists p xs
  unfolding exists update_where
  exists-update_where-same p test f [] h = refl
  exists-update_where-same p test f (x ∷ xs) h =
      ground (arith, h x, exists-update_where-same p test f xs h)

  -- An update that touches no row which passes the test keeps what passes it.
  pub exists-update_where-apart :
      (p test : A → Bool) (f : A → A) (xs : List A)
      → ((x : A) → p x ≡ true → test x ≡ false)
      → exists p xs ≡ true
      → exists p (update_where test f xs) ≡ true
  unfolding exists update_where
  exists-update_where-apart p test f [] h k = k
  exists-update_where-apart p test f (x ∷ xs) h k =
      ground (arith, h x, exists-update_where-apart p test f xs h)

  -- No row passes the test after an update that ends it.
  pub exists-update_where-ended :
      (p : A → Bool) (f : A → A) (xs : List A)
      → ((x : A) → p (f x) ≡ false)
      → exists p (update_where p f xs) ≡ false
  unfolding exists update_where
  exists-update_where-ended p f [] h = refl
  exists-update_where-ended p f (x ∷ xs) h = ground (arith, h x, exists-update_where-ended p f xs h)

  pub exists-select :
      (p q : A → Bool) (xs : List A)
      → ((x : A) → p x ≡ true → q x ≡ true)
      → exists p (select q xs) ≡ exists p xs
  unfolding exists select
  exists-select p q [] h = refl
  exists-select p q (x ∷ xs) h = ground (arith, h x, exists-select p q xs h)

  -- Deleting makes no row up.
  pub exists-select-none :
      (p q : A → Bool) (xs : List A) → exists p xs ≡ false → exists p (select q xs) ≡ false
  unfolding exists select
  exists-select-none p q [] h = refl
  exists-select-none p q (x ∷ xs) h = ground (arith, exists-select-none p q xs)

  pub exists-implied :
      (p q : A → Bool) (xs : List A)
      → ((x : A) → p x ≡ true → q x ≡ true)
      → exists p xs ≡ true
      → exists q xs ≡ true
  unfolding exists
  exists-implied p q [] h k = k
  exists-implied p q (x ∷ xs) h k = ground (arith, h x, exists-implied p q xs h)

  pub exists-none :
      (p q : A → Bool) (xs : List A)
      → ((x : A) → p x ≡ true → q x ≡ true)
      → exists q xs ≡ false
      → exists p xs ≡ false
  unfolding exists
  exists-none p q [] h k = refl
  exists-none p q (x ∷ xs) h k = ground (arith, h x, exists-none p q xs h)

  pub exists-never : (p : A → Bool) (xs : List A) → ((x : A) → p x ≡ false) → exists p xs ≡ false
  unfolding exists
  exists-never p [] h = refl
  exists-never p (x ∷ xs) h = ground (arith, h x, exists-never p xs h)

  pub exists-select-apart :
      (p q : A → Bool) (xs : List A)
      → ((x : A) → q x ≡ true → p x ≡ false)
      → exists p (select q xs) ≡ false
  unfolding exists select
  exists-select-apart p q [] h = refl
  exists-select-apart p q (x ∷ xs) h = ground (arith, h x, exists-select-apart p q xs h)

  -- A deletion that decides alike on every row in question.
  pub exists-select-alike :
      (p keep : A → Bool) (c : Bool) (xs : List A)
      → ((x : A) → p x ≡ true → keep x ≡ c)
      → exists p (select keep xs) ≡ (exists p xs && c)
  unfolding exists select
  exists-select-alike p keep c [] h = refl
  exists-select-alike p keep c (x ∷ xs) h = ground (arith, h x, exists-select-alike p keep c xs h)

  -- An update that decides alike on every row in question.
  pub exists-update_where-alike :
      (p test : A → Bool) (f : A → A) (c : Bool) (xs : List A)
      → ((x : A) → p (if test x then f x else x) ≡ (p x && c))
      → exists p (update_where test f xs) ≡ (exists p xs && c)
  unfolding exists update_where
  exists-update_where-alike p test f c [] h = refl
  exists-update_where-alike p test f c (x ∷ xs) h =
      ground (arith, h x, exists-update_where-alike p test f c xs h)

  -- An update of other rows than those selected.
  pub select-update_where-apart :
      (p test : A → Bool) (f : A → A) (xs : List A)
      → ((x : A) → p (f x) ≡ p x)
      → ((x : A) → p x ≡ true → test x ≡ false)
      → select p (update_where test f xs) ≡ select p xs
  unfolding select update_where
  select-update_where-apart p test f [] h k = refl
  select-update_where-apart p test f (x ∷ xs) h k =
      ground (arith, h x, k x, select-update_where-apart p test f xs h k)

module _ {A X : Type 0} where
  pub exists-map :
      (q : X → Bool) (f : A → X) (xs : List A) → exists q (map f xs) ≡ exists (λ x. q (f x)) xs
  unfolding exists
  exists-map q f [] = refl
  exists-map q f (x ∷ xs) = ground (arith, exists-map q f xs)
