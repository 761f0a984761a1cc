-- ===== src/Prwatch/News.antt =====
-- internal/service/prwatch: two observations that are the same one.
use lac.Base.{
  String, ◌==◌, true, false, none, some, List, [], ◌∷◌, ◌≡◌, refl, arith, All, exists, select,
  eq_refl, Bool-cases, inl, inr,
}
use lac.Base.Result.{Result, ok, err, run_tx}
use lac.Core.Watch.{Watch}
use lac.Store.{Db}
use lac.Store.Watches
use lac.Store.Transaction.{in_transaction, commit}
use lac.Github.Client.{answered}
use lac.Prwatch.State.{Outside, Service, run, signal, record_events}
use lac.Prwatch.Polling.{poll_with, updated, recovery, after_observation}
use lac.Github.PullRequest.{PullRequest, Comment, Review, ReviewThread, ChecksSummary}
use lac.Prwatch.Changes.{
  state_change, checks_change, head_change, comment_changes, review_changes, thread_changes,
  thread_change, last_thread, is_new_comment, is_new_review, changes_between, changes_after,
}

-- No two threads have one identifier.
unfoldable pub DistinctThreads : List ReviewThread → Type 0
DistinctThreads [] = Unit {0}
DistinctThreads (t ∷ ts) = (exists (λ u. u.id == t.id) ts ≡ false) × DistinctThreads ts

module _ {A : Type 0} (id_of : A → String) where
  unfoldable pub KnownTo : List A → List A → Type 0
  KnownTo previous xs = All (λ c. exists (λ b. id_of b == id_of c) previous ≡ true) xs

  KnownTo-more : (x : A) (previous xs : List A) → KnownTo previous xs → KnownTo (x ∷ previous) xs
  unfolding KnownTo exists
  KnownTo-more x previous [] known = tt
  KnownTo-more x previous (c ∷ xs) (here, rest) = (ground arith, KnownTo-more x previous xs rest)

  KnownTo-self : (xs : List A) → KnownTo xs xs
  unfolding KnownTo exists
  KnownTo-self [] = tt
  KnownTo-self (x ∷ xs) =
      (ground (arith, eq_refl (id_of x)), KnownTo-more x xs xs (KnownTo-self xs))

old_comments :
    (previous xs : List Comment)
    → KnownTo (λ c. c.id) previous xs
    → select (is_new_comment previous) xs ≡ []
unfolding KnownTo select is_new_comment
old_comments previous [] known = refl
old_comments previous (c ∷ xs) (here, rest) = ground (arith, old_comments previous xs rest)

old_reviews :
    (previous xs : List Review)
    → KnownTo (λ c. c.id) previous xs
    → select (is_new_review previous) xs ≡ []
unfolding KnownTo select is_new_review
old_reviews previous [] known = refl
old_reviews previous (c ∷ xs) (here, rest) = ground (arith, old_reviews previous xs rest)

-- A thread that is the last of its identifier.
abbrev IsLast : List ReviewThread → ReviewThread → Type 0
IsLast threads t = last_thread t.id threads ≡ some t

IsLast-more :
    (x : ReviewThread) (previous ts : List ReviewThread)
    → All (IsLast previous) ts
    → All (IsLast (x ∷ previous)) ts
unfolding last_thread
IsLast-more x previous [] known = tt
IsLast-more x previous (t ∷ ts) (here, rest) = (rw here refl, IsLast-more x previous ts rest)

last_thread-none :
    (id : String) (ts : List ReviewThread)
    → exists (λ u. u.id == id) ts ≡ false
    → last_thread id ts ≡ none
unfolding last_thread exists
last_thread-none id [] h = refl
last_thread-none id (t ∷ ts) h = ground (arith, last_thread-none id ts)

IsLast-self : (ts : List ReviewThread) → DistinctThreads ts → All (IsLast ts) ts
unfolding DistinctThreads last_thread
IsLast-self [] d = tt
IsLast-self (t ∷ ts) (fresh, d) =
    (rw (last_thread-none t.id ts fresh, eq_refl t.id) refl, IsLast-more t ts ts (IsLast-self ts d))

unchanged_thread : (t : ReviewThread) → thread_change (some t) t ≡ []
unfolding thread_change
unchanged_thread t = ground arith

old_threads :
    (previous ts : List ReviewThread) → All (IsLast previous) ts → thread_changes previous ts ≡ []
unfolding thread_changes
old_threads previous [] known = refl
old_threads previous (t ∷ ts) (here, rest) =
    rw (here, unchanged_thread t, old_threads previous ts rest) refl

no_state_change : (p : PullRequest) → state_change p p ≡ []
unfolding state_change
no_state_change p = elim (Bool-cases p.draft) [
  | inl d ↦ ground (arith, eq_refl p.state)
  | inr d ↦ ground (arith, eq_refl p.state)
]

no_checks_change : (c : ChecksSummary) → checks_change c c ≡ []
unfolding checks_change
no_checks_change c = ground (arith, eq_refl c.state)

no_head_change : (sha : String) → head_change sha sha ≡ []
unfolding head_change
no_head_change sha = ground (arith, eq_refl sha)

-- An observation differs in nothing from itself.
pub changes_between_self :
    (p : PullRequest) → DistinctThreads p.threads → changes_between (some p) p ≡ []
unfolding changes_between changes_after comment_changes review_changes
changes_between_self p distinct =
    rw
      (
        no_state_change p,
        no_checks_change p.checks,
        no_head_change p.head_sha,
        old_comments p.comments p.comments (KnownTo-self (λ c. c.id) p.comments),
        old_reviews p.reviews p.reviews (KnownTo-self (λ c. c.id) p.reviews),
        old_threads p.threads p.threads (IsLast-self p.threads distinct),
      )
      refl

-- The three tables that hold what was reported.
unfoldable pub Quiet : Db → Db → Type 0
Quiet s t =
    (t.watch_events ≡ s.watch_events) × (t.messages ≡ s.messages) × (t.deliveries ≡ s.deliveries)

observed_lem :
    (w : Watch) (s : Service) → Quiet s.post.db (run (Watches.record_observation w) s).1.post.db
unfolding Quiet run in_transaction commit Watches.record_observation run_tx
observed_lem w s = elim (Bool-cases (exists (λ v. v.id == w.id) s.post.db.watches)) [
  | inl e ↦ rw e (refl, refl, refl)
  | inr e ↦ rw e (refl, refl, refl)
]

after_quiet_observation :
    (o : Outside) (w now_watch : Watch) (p : PullRequest) (r : Result (Unit {0}) × Service)
    → changes_between w.snapshot p ≡ []
    → recovery w ≡ []
    → (after_observation o w now_watch p r).1.post.db ≡ r.1.post.db
unfolding record_events signal
after_quiet_observation o w now_watch p (err e, s) none_new no_news = refl
after_quiet_observation o w now_watch p (ok u, s) none_new no_news = rw (none_new, no_news) refl

-- A poll that finds the pull request as it was, after a poll that did not fail, tells nobody and
-- records no event, whatever else it stores. The threads have different identifiers.
pub unchanged_pull_request_is_Quiet :
    (o : Outside) (w : Watch) (p : PullRequest) (account : String) (s : Service)
    → w.snapshot ≡ some p
    → w.failures ≡ 0
    → DistinctThreads p.threads
    → Quiet s.post.db (poll_with o w (answered (p, account)) s).1.post.db
unfolding poll_with
unchanged_pull_request_is_Quiet o w p account s known healthy distinct =
    let now_watch = updated o s.options w p account in
    let same : changes_between w.snapshot p ≡ [] = rw known (changes_between_self p distinct) in
    let calm : recovery w ≡ [] = ground arith in
    rw
      (after_quiet_observation o w now_watch p (run (Watches.record_observation now_watch) s) same
        calm)
      (observed_lem now_watch s)
