-- ===== src/Base/Loops.antt =====
-- What a loop over the rows that a query returned has done when it ends.
use Prim.Native.Nat.{zero, suc, ◌≤◌}
use mathlib.Core.Path.{◌≡◌, refl, ap, ◌∙◌}
use mathlib.Core.Bool.{Bool, true, false}
use mathlib.Core.Logic.{inl, inr}
use mathlib.Core.List.{List, [], ◌∷◌, map}
use native.Mathlib.Omega.{arith}
use Prim.Native.String.{String}
use text.Mathlib.Text.{◌==◌}
use text.Mathlib.TextPositions.{eq_refl}
use lac.Base.Tests.{Bool-cases}
use lac.Base.Lists.{
  length, All, All-map, count_where, count_where_mono, select, update_where, exists,
}
use lac.Base.Sort.{order_by, count_where-order_by}
use lac.Base.Result.{Tx, Result, ok, err, ◌>>=◌, return, for_each}

pub bind_ok :
    {S A B : Type 0} (m : Tx S A) (f : A → Tx S B) (s t : S) (a : A)
    → m s ≡ ok (a, t)
    → (m >>= f) s ≡ f a t
unfolding ◌>>=◌
bind_ok {S} {A} {B} m f s t a h = go (m s) h
  where
    go :
        (r : Result (A × S))
        → r ≡ ok (a, t)
        → elim r as (λ _. Result (B × S)) [ ok (a', t') ↦ f a' t' | err e ↦ err e ] ≡ f a t
    go r k = rw k refl

module _ {S A : Type 0} (body : A → Tx S (Unit {0})) (I : List A → S → Type 0)
    (step : (x : A) (xs : List A) (s : S)
      → I (x ∷ xs) s
      → (t : S) × (body x s ≡ ok (tt, t)) × I xs t) where
  -- A loop whose rounds succeed and keep an invariant of what is left to do.
  pub for_each-total :
      (xs : List A) (s : S) → I xs s → (t : S) × (for_each body xs s ≡ ok (length xs, t)) × I [] t
  unfolding for_each return
  for_each-total [] s h = (s, refl, h)
  for_each-total (x ∷ xs) s h =
      let (s1, first, k) = step x xs s h in
      let (t, more, last) = for_each-total xs s1 k in
      (
        t,
        bind_ok (body x) _ s s1 tt first ∙ bind_ok (for_each body xs) _ s1 t (length xs) more,
        last,
      )

module _ {A : Type 0} where
  pub All-updated {κ μ} :
      (P : A → Type κ) (Q : A → Type μ) (test : A → Bool) (f : A → A) (xs : List A)
      → ((x : A) → test x ≡ true → P x → Q (f x))
      → ((x : A) → test x ≡ false → P x → Q x)
      → All P xs
      → All Q (update_where test f xs)
  unfolding update_where
  All-updated P Q test f [] h k a = tt
  All-updated P Q test f (x ∷ xs) h k a = elim (Bool-cases (test x)) [
    | inl e ↦ rw e (h x e a.0, All-updated P Q test f xs h k a.1)
    | inr e ↦ rw e (k x e a.0, All-updated P Q test f xs h k a.1)
  ]

module _ {A X : Type 0} where
  pub count_where-map :
      (q : X → Bool) (f : A → X) (xs : List A)
      → count_where q (map f xs) ≡ count_where (λ x. q (f x)) xs
  unfolding count_where
  count_where-map q f [] = refl
  count_where-map q f (x ∷ xs) = ground (arith, count_where-map q f xs)

-- A query by `p` returns as many values as rows pass it.
pub length-query :
    {A X : Type 0} (f : A → X) (before : A → A → Bool) (p : A → Bool) (rows : List A)
    → length (map f (order_by before (select p rows))) ≡ count_where p rows
unfolding count_where select
length-query {A} {X} f before p rows = ground (
  arith,
  length-map (order_by before (select p rows)),
  counts (order_by before (select p rows)),
  count_where-order_by before (λ x. true) (select p rows),
  selects rows,
)
  where
    length-map : (xs : List A) → length (map f xs) ≡ length xs
    length-map [] = refl
    length-map (x ∷ xs) = ap suc (length-map xs)

    counts : (xs : List A) → length xs ≡ count_where (λ x. true) xs
    counts [] = refl
    counts (x ∷ xs) = ap suc (counts xs)

    selects : (xs : List A) → count_where (λ x. true) (select p xs) ≡ count_where p xs
    selects [] = refl
    selects (x ∷ xs) = ground (arith, selects xs)

pub length-unsorted :
    {A X : Type 0} (f : A → X) (p : A → Bool) (rows : List A)
    → length (map f (select p rows)) ≡ count_where p rows
unfolding count_where select
length-unsorted f p [] = refl
length-unsorted f p (x ∷ rows) = elim (Bool-cases (p x)) [
  | inl e ↦ rw e (ap suc (length-unsorted f p rows))
  | inr e ↦ rw e (length-unsorted f p rows)
]

-- Rows of type `A`, and the values of type `X` that a query made of them, with their keys.
module _ {A X : Type 0} (key : A → String) (name : X → String) (p : A → Bool) where
  -- Each row that passes the test is still to come.
  pub Remaining : List X → List A → Type 0
  Remaining xs rows = All (λ l. p l ≡ true → suc zero ≤ count_where (λ x. name x == key l) xs) rows

  pub Remaining-step :
      (x : X) (xs : List X) (rows : List A) (test : A → Bool) (f : A → A)
      → ((l : A) → p l ≡ true → (name x == key l) ≡ true → test l ≡ true)
      → ((l : A) → test l ≡ true → p (f l) ≡ false)
      → Remaining (x ∷ xs) rows
      → Remaining xs (update_where test f rows)
  unfolding Remaining count_where
  Remaining-step x xs rows test f covers done h =
      All-updated _ _ test f rows (λ l e k k'. absurd (ground (arith, done l e)))
        (λ l e k k'. ground (arith, k k', covers l k')) h

  selected :
      (rows : List A)
      → All (λ l. p l ≡ true → suc zero ≤ count_where (λ y. key y == key l) (select p rows)) rows
  unfolding select count_where
  selected [] = tt
  selected (x ∷ rows) = (
    λ e. ground (arith, eq_refl (key x)),
    All-map _ _ rows (λ l h e. ground (arith, h e)) (selected rows),
  )

  pub Remaining-start :
      (f : A → X) (before : A → A → Bool) (rows : List A)
      → ((l : A) → name (f l) ≡ key l)
      → Remaining (map f (order_by before (select p rows))) rows
  unfolding Remaining
  Remaining-start f before rows same =
      All-map _ _ rows
        (λ l h e. ground (
          arith,
          h e,
          count_where_mono (λ y. key y == key l) (λ y. name (f y) == key l) (select p rows)
              (λ y k. rw (same y) k),
          count_where-map (λ x. name x == key l) f (order_by before (select p rows)),
          count_where-order_by before (λ y. name (f y) == key l) (select p rows),
        ))
        (selected rows)

  -- A query that does not sort.
  pub Remaining-unsorted :
      (f : A → X) (rows : List A)
      → ((l : A) → name (f l) ≡ key l)
      → Remaining (map f (select p rows)) rows
  unfolding Remaining
  Remaining-unsorted f rows same =
      All-map _ _ rows
        (λ l h e. ground (
          arith,
          h e,
          count_where_mono (λ y. key y == key l) (λ y. name (f y) == key l) (select p rows)
              (λ y k. rw (same y) k),
          count_where-map (λ x. name x == key l) f (select p rows),
        ))
        (selected rows)

  pub Remaining-done : (rows : List A) → Remaining [] rows → exists p rows ≡ false
  unfolding Remaining exists count_where
  Remaining-done [] h = refl
  Remaining-done (x ∷ rows) h = ground (arith, h.0, Remaining-done rows h.1)
