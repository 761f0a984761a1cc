-- ===== src/Dispatch/Roots.antt =====
-- Where the work of a task may be done.
use lac.Base.{
  String, ◌==◌, Bool, true, false, ◌||◌, some, List, [], ◌∷◌, ◌++◌, ◌≡◌, arith, All, exists,
  Bool-cases, Option-cases, ◌⊎◌, inl, inr, eq_iff, eq_refl,
}
use lac.Base.Result.{ok, invalid_argument, unauthorised, require, return, ◌>>◌, run_tx}
use lac.Base.Ensures.{bind_cases}
use lac.Core.Time.{Time}
use lac.Core.Task.{Task}
use lac.Store.{Db}
use lac.Store.Tasks
use lac.Dispatch.Workdir.{
  FilePath, is_absolute, elements, push_element, clean_elements, clean, text_of, rel, rel_parts,
  stays_below, within, reversed, ups,
}
use lac.Dispatch.Steps.{run_cases}
use lac.Dispatch.State.{Service, Command}
use lac.Dispatch.Work.{
  SubmitRequest, asked_workdir, allowed, resolve_workdir, task_for, submit_command, submit,
}

-- The way from the first path to the second that does not go up: the second continues the first.
rel_parts-stays_below :
    (base target rest : List String)
    → rel_parts base target ≡ some rest
    → stays_below rest ≡ true
    → target ≡ base ++ rest
unfolding rel_parts stays_below
rel_parts-stays_below [] target rest h k = ground arith
rel_parts-stays_below (b ∷ base) [] rest h k = absurd (ground arith)
rel_parts-stays_below (b ∷ base) (t ∷ target) rest h k = elim (Bool-cases (b == t)) [
  | inl e ↦
      let same : b ≡ t = (eq_iff b t).0 e in ground (arith, rel_parts-stays_below base target rest)
  | inr e ↦ elim (Bool-cases (b == "..")) [
    | inl d ↦ absurd (ground arith)
    | inr d ↦
        let up : ".." ∷ ups base (t ∷ target) ≡ rest = ground arith in
        let false_is_true : false ≡ true = rw (← up) at k in absurd (ground arith)
  ]
]

abbrev pub IsPlain : String → Type 0
IsPlain e = (e == "..") ≡ false

push_element-IsPlain :
    (e : String) (done : List String) → All IsPlain done → All IsPlain (push_element true e done)
unfolding push_element
push_element-IsPlain e [] a = elim (Bool-cases (e == "" || e == ".")) [
  | inl skip ↦ rw skip tt
  | inr word ↦ elim (Bool-cases (e == "..")) [
    | inl up ↦ rw (word, up) tt
    | inr plain ↦ rw (word, plain) (plain, tt)
  ]
]
push_element-IsPlain e (d ∷ done) a = elim (Bool-cases (e == "" || e == ".")) [
  | inl skip ↦ rw skip a
  | inr word ↦ elim (Bool-cases (e == "..")) [
    | inl up ↦ rw (word, up, a.0) a.1
    | inr plain ↦ rw (word, plain) (plain, a)
  ]
]

clean_elements-IsPlain :
    (done es : List String) → All IsPlain done → All IsPlain (clean_elements true done es)
unfolding clean_elements
clean_elements-IsPlain done [] a = a
clean_elements-IsPlain done (e ∷ es) a =
    clean_elements-IsPlain (push_element true e done) es (push_element-IsPlain e done a)

reversed-IsPlain :
    (xs acc : List String) → All IsPlain xs → All IsPlain acc → All IsPlain (reversed xs acc)
reversed-IsPlain [] acc a b = b
reversed-IsPlain (x ∷ xs) acc a b = reversed-IsPlain xs (x ∷ acc) a.1 (a.0, b)

-- A cleaned absolute path has no `..` left in it.
clean-IsPlain : (path : String) → is_absolute path ≡ true → All IsPlain (clean path).parts
unfolding clean
clean-IsPlain path h = rw h (
    reversed-IsPlain (clean_elements true [] (elements path)) []
      (clean_elements-IsPlain [] (elements path) tt) tt)

-- The path is the text of the root, or an absolute path without `..` that continues the root's.
pub record UnderRoot (root workdir : String) : Type 0 where
  pub path : FilePath
  pub absolute : path.rooted ≡ true
  pub plain : All IsPlain path.parts
  pub named : workdir ≡ text_of path
  pub below :
      (workdir ≡ text_of (clean root))
      ⊎ (((clean root).rooted ≡ true)
          × ((rest : List String) × (path.parts ≡ (clean root).parts ++ rest)))

within-below :
    (path root : FilePath)
    → path.rooted ≡ true
    → within path root ≡ true
    → (text_of path ≡ text_of root)
      ⊎ ((root.rooted ≡ true) × ((rest : List String) × (path.parts ≡ root.parts ++ rest)))
unfolding within rel
within-below path root h k = elim (Bool-cases (text_of path == text_of root)) [
  | inl e ↦ inl ((eq_iff (text_of path) (text_of root)).0 e)
  | inr e ↦ elim (Bool-cases root.rooted) [
    | inl r ↦ elim (Option-cases (rel_parts root.parts path.parts)) [
      | inl gone ↦ absurd (ground arith)
      | inr (rest, found) ↦
          inr (r, (rest, rel_parts-stays_below root.parts path.parts rest found (ground arith)))
    ]
    | inr r ↦ absurd (ground arith)
  ]
]

-- Some root has what the test asks.
exists-root :
    (test : String → Bool) (roots : List String)
    → exists test roots ≡ true
    → (r : String) × (exists (λ x. x == r) roots ≡ true) × (test r ≡ true)
unfolding exists
exists-root test [] h = absurd (ground arith)
exists-root test (r ∷ roots) h = elim (Bool-cases (test r)) [
  | inl e ↦ (r, ground (arith, eq_refl r), e)
  | inr e ↦ let (r', found, t) = exists-root test roots (ground arith) in (r', ground arith, t)
]

clean-rooted : (path : String) → is_absolute path ≡ true → (clean path).rooted ≡ true
unfolding clean
clean-rooted path h = h

checked :
    (roots : List String) (asked : String) (s t : Db) (workdir : String)
    → (do
      require (is_absolute asked) invalid_argument
      require (allowed roots (clean asked)) unauthorised
      return (text_of (clean asked)))
        s
      ≡ ok (workdir, t)
    → (is_absolute asked ≡ true)
      × (allowed roots (clean asked) ≡ true)
      × (workdir ≡ text_of (clean asked))
unfolding run_tx
checked roots asked s t workdir h = ground arith

-- What `resolveWorkdir` lets through.
resolved-UnderRoot :
    (r : String) (more : List String) (request : SubmitRequest) (s t : Db) (workdir : String)
    → resolve_workdir (r ∷ more) request s ≡ ok (workdir, t)
    → (root : String) × (exists (λ x. x == root) (r ∷ more) ≡ true) × UnderRoot root workdir
unfolding resolve_workdir allowed
resolved-UnderRoot r more request s t workdir h =
    let (asked, s', _, h1) = bind_cases (asked_workdir request) _ s t workdir h in
    let (absolute, within_one, named) = checked (r ∷ more) asked s' t workdir h1 in
    let (root, member, inside) =
      exists-root (λ root. within (clean asked) (clean root)) (r ∷ more) within_one in
    (
      root,
      member,
      record {
        path = clean asked;
        absolute = clean-rooted asked absolute;
        plain = clean-IsPlain asked absolute;
        named = named;
        below =
            rw named (within-below (clean asked) (clean root) (clean-rooted asked absolute) inside);
      },
    )

submitted_command-UnderRoot :
    (request : SubmitRequest) (command : Command) (task_id : String) (now : Time) (s t : Service)
    (task : Task) (r : String) (more : List String)
    → s.workdir_roots ≡ r ∷ more
    → submit_command request command task_id now s ≡ (ok task, t)
    → (root : String) × (exists (λ x. x == root) (r ∷ more) ≡ true) × UnderRoot root task.workdir
unfolding submit_command task_for
submitted_command-UnderRoot request command task_id now s t task r more roots h =
    elim (run_cases (resolve_workdir s.workdir_roots request) s) [
      | inl (e, _, ran) ↦ absurd (ground arith)
      | inr (workdir, db, k, ran) ↦
          elim (run_cases (Tasks.create (task_for request command workdir task_id now))
            (record s { db = db })) [
              | inl (e, _, ran') ↦ absurd (ground arith)
              | inr (_, db', _, ran') ↦
                  let same : task.workdir ≡ workdir = ground arith in
                  rw same (resolved-UnderRoot r more request s.db db workdir (rw roots at k))
            ]
    ]

-- Where the operator has named roots, work is done below them alone: the directory of a task that was
-- submitted is one of the roots, or an absolute path without `..` whose elements continue those of an
-- absolute root.
pub submitted_work_stays_below_the_roots :
    (request : SubmitRequest) (task_id : String) (now : Time) (s t : Service) (task : Task)
    (r : String) (more : List String)
    → s.workdir_roots ≡ r ∷ more
    → submit request task_id now s ≡ (ok task, t)
    → (root : String) × (exists (λ x. x == root) (r ∷ more) ≡ true) × UnderRoot root task.workdir
unfolding submit
submitted_work_stays_below_the_roots request task_id now s t task r more roots h =
    elim (Option-cases (s.catalogue.command request.command_key)) [
      | inl gone ↦ absurd (ground arith)
      | inr (command, known) ↦
          submitted_command-UnderRoot request command task_id now s t task r more roots
            (ground arith)
    ]
