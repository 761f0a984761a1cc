-- ===== src/Reporting/Deadline.antt =====
-- internal/service/reporting/reporting.go: `Collect` ends.
use lac.Base.{
  ℕ, ◌+◌, ◌-◌, ◌*◌, ◌≤◌, min, String, ◌==◌, Bool, true, false, not, List, [], ◌∷◌, ◌≡◌, refl, arith,
  ◌∙◌, ◌⊎◌, inl, inr, select, exists, leb, count_where, All, Bool-cases, if◌then◌else◌, eq_refl,
  eq_iff, ap, ◌||◌, exists-select, exists-select-apart,
}
use lac.Base.Result.{Result, ok, run_tx}
use lac.Core.Time.{Time}
use lac.Core.Report.{ReportRequest, Report, ReportCollection}
use lac.Store.Messages.{is_empty}
use lac.Store.Reports
use lac.Store.Transaction.{in_transaction, commit}
use lac.Reporting.State.{Service, run, watch, recheck_interval}
use lac.Reporting.Collecting.{
  Round, Outcome, collected, Wake, arrived, ticked, cancelled, collect_rounds, after_snapshot,
  snapshot, collection_of, has_answered,
}

abbrev pub is_tick : Wake → Bool
is_tick ticked = true
is_tick arrived = false
is_tick cancelled = false

abbrev pub is_cancelled : Wake → Bool
is_cancelled cancelled = true
is_cancelled arrived = false
is_cancelled ticked = false

-- The timer of a round: the rest of the time until the deadline, and a quarter of a second at most.
abbrev pub timer : ReportRequest → Round → ℕ
timer request r = min (request.deadline - r.now) recheck_interval

-- The clock does not go back from `start`, and a round that was woken by its timer took that long.
unfoldable pub Clocked : ReportRequest → Time → List Round → Type 0
Clocked request start [] = Unit {0}
Clocked request start (r ∷ rounds) =
    (start ≤ r.now)
    × Clocked request (if is_tick r.wake then r.now + timer request r else r.now) rounds

-- Everybody who was asked stands in one of the two lists, and not in both.
unfoldable pub IsSorted : ReportCollection → Type 0
IsSorted c =
    All (λ a. exists (λ b. b == a) c.silent_agent_ids ≡ not (has_answered c.reports a))
      c.request.asked_agent_ids

silent_lem :
    (reports : List Report) (a : String) (asked : List String)
    → exists (λ b. b == a) asked ≡ true
    → exists (λ b. b == a) (select (λ b. not (has_answered reports b)) asked)
      ≡ not (has_answered reports a)
silent_lem reports a asked there =
    let same : (b : String) → (b == a) ≡ true → has_answered reports b ≡ has_answered reports a =
      λ b e. ap (has_answered reports) ((eq_iff b a).0 e) in
    elim (Bool-cases (has_answered reports a)) [
      | inl answered ↦
          exists-select-apart (λ b. b == a) (λ b. not (has_answered reports b)) asked
            (λ b e. ground (arith, same b))
          ∙ rw answered refl
      | inr silent ↦
          exists-select (λ b. b == a) (λ b. not (has_answered reports b)) asked
            (λ b e. ground (arith, same b))
          ∙ there
          ∙ rw silent refl
    ]

sorted_lem :
    (reports : List Report) (asked more : List String)
    → All (λ a. exists (λ b. b == a) asked ≡ true) more
    → All
        (λ a.
          exists (λ b. b == a) (select (λ b. not (has_answered reports b)) asked)
          ≡ not (has_answered reports a))
        more
sorted_lem reports asked [] there = tt
sorted_lem reports asked (a ∷ more) (here, rest) =
    (silent_lem reports a asked here, sorted_lem reports asked more rest)

all_there :
    (x : String) (asked more : List String)
    → All (λ a. exists (λ b. b == a) asked ≡ true) more
    → All (λ a. exists (λ b. b == a) (x ∷ asked) ≡ true) more
unfolding exists
all_there x asked [] there = tt
all_there x asked (a ∷ more) (here, rest) = (ground arith, all_there x asked more rest)

there_lem : (asked : List String) → All (λ a. exists (λ b. b == a) asked ≡ true) asked
unfolding exists
there_lem [] = tt
there_lem (a ∷ asked) = (ground (arith, eq_refl a), all_there a asked asked (there_lem asked))

collection_of-IsSorted :
    (request : ReportRequest) (reports : List Report) → IsSorted (collection_of request reports)
unfolding IsSorted collection_of
collection_of-IsSorted request reports =
    sorted_lem reports request.asked_agent_ids request.asked_agent_ids
      (there_lem request.asked_agent_ids)

snapshot_lem :
    (request : ReportRequest) (s : Service)
    → snapshot request s ≡ (ok (collection_of request (Reports.reports_of request.id s.post.db)), s)
unfolding snapshot run in_transaction commit run_tx Reports.reports_for
snapshot_lem request s = refl

-- The loop returned a collection, which is sorted, and not without a reason.
unfoldable pub IsCollected : ReportRequest → List Round → Outcome → Type 0
IsCollected request rounds outcome =
    (c : ReportCollection) × (outcome ≡ collected (ok c))
    × IsSorted c
    × ((is_empty c.silent_agent_ids ≡ true)
        ⊎ (exists (λ r. leb request.deadline r.now || is_cancelled r.wake) rounds ≡ true))

IsCollected-later :
    (request : ReportRequest) (r : Round) (rounds : List Round) (outcome : Outcome)
    → IsCollected request rounds outcome
    → IsCollected request (r ∷ rounds) outcome
unfolding IsCollected exists
IsCollected-later request r rounds outcome (c, e, sorted, inl all) = (c, e, sorted, inl all)
IsCollected-later request r rounds outcome (c, e, sorted, inr late) =
    (c, e, sorted, inr (ground arith))

woken_lem :
    (request : ReportRequest) (r : Round) (rounds : List Round) (c : ReportCollection) (w : Wake)
    (s : Service) (more : Outcome × Service)
    → IsSorted c
    → r.wake ≡ w
    → (is_cancelled w ≡ false → IsCollected request rounds more.0)
    → IsCollected request
        (r ∷ rounds)
        (elim w as (λ x. Outcome × Service) [
          | arrived ↦ more
          | ticked ↦ more
          | cancelled ↦ (collected (ok c), s)
        ]).0
woken_lem request r rounds c arrived s more sorted why later =
    IsCollected-later request r rounds more.0 (later refl)
woken_lem request r rounds c ticked s more sorted why later =
    IsCollected-later request r rounds more.0 (later refl)
woken_lem request r rounds c cancelled s more sorted why later =
    unfold IsCollected exists in (c, refl, sorted, inr (rw why ground arith))

round_lem :
    (request : ReportRequest) (r : Round) (rounds : List Round) (c : ReportCollection)
    (rest : Service → Outcome × Service) (s : Service)
    → IsSorted c
    → (leb request.deadline r.now ≡ false
        → is_cancelled r.wake ≡ false
        → IsCollected request rounds (rest (r.asleep s)).0)
    → IsCollected request (r ∷ rounds) (after_snapshot request r rest (ok c, s)).0
unfolding after_snapshot
round_lem request r rounds c rest s sorted more = elim (Bool-cases (is_empty c.silent_agent_ids)) [
  | inl all ↦ rw all unfold IsCollected in (c, refl, sorted, inl all)
  | inr some_silent ↦ elim (Bool-cases (leb request.deadline r.now)) [
    | inl late ↦
        rw (some_silent, late) unfold IsCollected exists in (c, refl, sorted, inr (ground arith))
    | inr early ↦
        rw (some_silent, early)
          (woken_lem request r rounds c r.wake (r.asleep s) (rest (r.asleep s)) sorted refl
            (more early))
  ]
]

-- However the answers come, the loop returns a collection.
pub collect_rounds_lem :
    (request : ReportRequest) (rounds : List Round) (start : Time) (s : Service)
    → start ≤ request.deadline
    → Clocked request start rounds
    → request.deadline + recheck_interval
      ≤ start + recheck_interval * count_where (λ r. is_tick r.wake) rounds
    → IsCollected request rounds (collect_rounds request rounds s).0
unfolding collect_rounds Clocked count_where
collect_rounds_lem request [] start s soon clocked enough = absurd (omega arith)
collect_rounds_lem request (r ∷ rounds) start s soon (later, clocked) enough =
    let s1 = r.before (watch request.id s) in
    rw (snapshot_lem request s1) (
      round_lem request r rounds _ (λ s'. collect_rounds request rounds s') s1
        (collection_of-IsSorted request _)
        (λ early awake.
          collect_rounds_lem request rounds
            (if is_tick r.wake then r.now + timer request r else r.now) (r.asleep s1) (ground arith)
            clocked (ground arith)))
