-- ===== src/Api/Watches.antt =====
-- internal/api/watches.go: the methods on pull requests. What is outside the watcher is outside here.
use lac.Base.{String, ◌==◌, not, Bool, false, Option, none, some, List, map, ℤ, if◌then◌else◌}
use lac.Base.Result.{Result, ok, err, Error, invalid_argument}
use lac.Core.Time.{Time}
use lac.Core.Agent.{Agent}
use lac.Core.Watch.{Watch}
use lac.Github.Client.{ForgeError}
use lac.Github.Reference.{parse_reference}
use lac.Prwatch.State.{Outside, Service}
use lac.Prwatch.Polling
use lac.Prwatch.Polling.{Polled, polled, unread, unstored}
use lac.Prwatch.Watching
use lac.Api.State.{Api, Texts}
use lac.Api.WatchViews.{WatchView, WatchDetail, view_of_watch, detail_of}

-- What a method comes to: no watcher, an error of the forge or of the domain, or an answer.
pub data Answer (A : Type 0) : Type 0 where
  unwatched : Answer A
  unseen : ForgeError → Answer A
  refused : Error → Answer A
  answered : A → Answer A

abbrev and_then :
    {A B : Type 0} → Answer A × Service → (A → Service → Answer B × Service) → Answer B × Service
and_then (unwatched, s) f = (unwatched, s)
and_then (unseen e, s) f = (unseen e, s)
and_then (refused e, s) f = (refused e, s)
and_then (answered x, s) f = f x s

abbrev of_result : {A : Type 0} → Result A × Service → Answer A × Service
of_result (ok x, s) = (answered x, s)
of_result (err e, s) = (refused e, s)

abbrev of_polled : Polled × Service → Answer Watch × Service
of_polled (polled w, s) = (answered w, s)
of_polled (unread e, s) = (unseen e, s)
of_polled (unstored e, s) = (refused e, s)

-- The watcher is optional; its database is that of the others.
unfoldable pub on_watcher : {A : Type 0} → (Service → Answer A × Service) → Api → Answer A × Api
on_watcher call a = elim a.watcher [
  | none ↦ (unwatched, a)
  | some w ↦
      let (r, s) = call (record w { post = record a.messaging { db = a.db } }) in
      (r, record a { db = s.post.db; watcher = some s })
]

abbrev named :
    {A : Type 0}
    → (String → String → ℤ → Service → Answer A × Service)
    → Option (String × String × ℤ)
    → Service
    → Answer A × Service
named f none s = (refused invalid_argument, s)
named f (some (owner, repository, number)) s = f owner repository number s

-- `handleWatchPullRequest`.
unfoldable pub handle_watch_pull_request :
    Outside → Texts → String → Agent → Api → Answer WatchView × Api
unfolding parse_reference Watching.watch view_of_watch on_watcher
handle_watch_pull_request o texts pull_request caller = on_watcher λ s.
    and_then
      (named
        (λ owner repository number s1.
          of_polled (Watching.watch o caller.id owner repository number s1))
        (parse_reference pull_request) s)
      λ w s'. (answered (view_of_watch texts o.now s' w), s')

pub record WatchIdParams : Type 0 where
  pub watch_id : String
  pub pull_request : String
  pub wait : Bool
  pub refresh : Bool

-- `resolveWatch`.
unfoldable pub resolve_watch : WatchIdParams → Service → Answer Watch × Service
unfolding parse_reference Watching.by_id Watching.by_reference
resolve_watch arguments s =
    if not (arguments.watch_id == "")
    then of_result (Watching.by_id arguments.watch_id s)
    else if not (arguments.pull_request == "")
    then named
        (λ owner repository number s1. of_result (Watching.by_reference owner repository number s1))
        (parse_reference arguments.pull_request) s
    else (refused invalid_argument, s)

-- After a failed refresh, the last good answer.
abbrev last_answer : String → Polled × Service → Answer Watch × Service
unfolding Watching.by_id
last_answer id (polled w, s) = (answered w, s)
last_answer id (unread e, s) = of_result (Watching.by_id id s)
last_answer id (unstored e, s) = of_result (Watching.by_id id s)

-- `Refresh` answers with an empty watch when there is none, and with the watch when the poll fails.
abbrev polled_again : Outside → Result Watch × Service → Answer Watch × Service
unfolding last_answer Polling.poll Watching.by_id
polled_again o (err e, s) = of_result (Watching.by_id "" s)
polled_again o (ok w, s) = last_answer w.id (Polling.poll o w s)

-- The `switch` of `handleWatchStatus`. `others` and `ended` are those of `Await`.
unfoldable pub brought_up_to_date :
    Outside → WatchIdParams → (Service → Service) → Bool → Watch → Service → Answer Watch × Service
unfolding polled_again Watching.by_id Watching.await
brought_up_to_date o arguments others ended w s =
    if arguments.refresh
    then polled_again o (Watching.by_id w.id s)
    else if arguments.wait
    then of_result (Watching.await w.id others ended s)
    else (answered w, s)

-- `handleWatchStatus`.
unfoldable pub handle_watch_status :
    Outside → Texts → WatchIdParams → (Service → Service) → Bool → Api → Answer WatchDetail × Api
unfolding resolve_watch brought_up_to_date detail_of on_watcher
handle_watch_status o texts arguments others ended = on_watcher λ s.
    and_then (resolve_watch arguments s) λ w s1.
      and_then (brought_up_to_date o arguments others ended w s1)
        λ w' s2. let (detail, s3) = detail_of texts o.now w' s2 in (answered detail, s3)

-- `handleWatchList`.
unfoldable pub handle_watch_list : Texts → Time → Bool → Agent → Api → Answer (List WatchView) × Api
unfolding Watching.mine Watching.all view_of_watch on_watcher
handle_watch_list texts now everyones caller = on_watcher λ s.
    and_then (of_result (if everyones then Watching.all s else Watching.mine caller.id s))
      λ watches s'. (answered (map (view_of_watch texts now s') watches), s')

-- `handleUnwatch`: whether the caller still watches.
unfoldable pub handle_unwatch : WatchIdParams → Agent → Api → Answer Bool × Api
unfolding resolve_watch Watching.unwatch on_watcher
handle_unwatch arguments caller = on_watcher λ s.
    and_then (resolve_watch arguments s)
      λ w s1. and_then (of_result (Watching.unwatch caller.id w.id s1)) λ _ s2. (answered false, s2)
