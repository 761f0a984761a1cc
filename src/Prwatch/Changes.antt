-- ===== src/Prwatch/Changes.antt =====
-- internal/service/prwatch/changes.go: what an agent is told about two observations of a pull request.
-- A map from identifiers to threads keeps the last thread of each.
use lac.Base.{
  String, ◌^^◌, ◌==◌, Bool, true, false, not, ◌&&◌, ◌||◌, Option, none, some, List, [], ◌∷◌, ◌++◌,
  map, exists, select, ltb, if◌then◌else◌, pos, le_ℤ, length,
}
use lac.Core.Watch.{WatchEvent, WatchEventKind, checks, state, comment, review, thread, commits}
use lac.Strings.{trim_space, before, join, byte_length, first_bytes}
use lac.Strings.Numbers.{itoa, itoa_ℤ}
use lac.Github.PullRequest.{
  PullRequest, ChecksSummary, Comment, Review, ReviewThread, failing, summary,
}

-- An event that is not stored yet.
abbrev pub event : WatchEventKind → String → WatchEvent
event kind text = record { watch_id = ""; kind = kind; summary = text; at = none }

-- `firstLine`.
unfoldable pub first_line : String → String
first_line body =
    let text = trim_space (before "\n" (trim_space body)) in
    if ltb 140 (byte_length text) then first_bytes 140 text ^^ "…" else text

-- `shorten`.
unfoldable pub shorten : String → String
shorten sha = if ltb 7 (byte_length sha) then first_bytes 7 sha else sha

-- `location`.
unfoldable pub location : ReviewThread → String
location t =
    if t.path == ""
    then "the pull request"
    else if le_ℤ t.line (pos 0)
    then t.path
    else t.path ^^ ":" ^^ itoa_ℤ t.line

-- `describeState`.
unfoldable pub describe_state : PullRequest → String
describe_state p =
    if p.state == "merged"
    then "merged"
    else if p.state == "closed"
    then "closed without merging"
    else if p.state == "open"
    then (if p.draft then "reopened as a draft" else "reopened")
    else p.state

abbrev pub same_flag : Bool → Bool → Bool
same_flag true b = b
same_flag false b = not b

-- `stateChange`.
unfoldable pub state_change : PullRequest → PullRequest → List WatchEvent
unfolding describe_state
state_change previous after =
    if not (previous.state == after.state)
    then event state (describe_state after ^^ " (was " ^^ previous.state ^^ ")") ∷ []
    else if same_flag previous.draft after.draft
    then []
    else event state (if after.draft then "marked as a draft" else "marked ready for review") ∷ []

-- The text of `checksChange`.
unfoldable pub checks_text : ChecksSummary → String
unfolding failing
checks_text s =
    if s.state == "failure"
    then "CI failed: " ^^ join ", " (map (λ c. c.name) (failing s))
    else if s.state == "success"
    then "CI passed (" ^^ itoa s.total ^^ " checks)"
    else if s.state == "pending"
    then "CI is running"
    else "CI state is now " ^^ s.state

-- `checksChange`.
unfoldable pub checks_change : ChecksSummary → ChecksSummary → List WatchEvent
checks_change previous after =
    if previous.state == after.state then [] else event checks (checks_text after) ∷ []

-- A push is a head that is another one, and known.
unfoldable pub head_change : String → String → List WatchEvent
head_change previous after =
    if previous == after || after == ""
    then []
    else event commits ("pushed: the branch is now at " ^^ shorten after) ∷ []

unfoldable pub is_new_comment : List Comment → Comment → Bool
is_new_comment previous c = not (exists (λ (b : Comment). b.id == c.id) previous)

unfoldable pub comment_event : Comment → WatchEvent
comment_event c = event comment (c.author ^^ " commented: " ^^ first_line c.body)

-- `commentChanges`.
unfoldable pub comment_changes : List Comment → List Comment → List WatchEvent
unfolding is_new_comment
comment_changes previous after = map comment_event (select (is_new_comment previous) after)

-- `describeReview`.
unfoldable pub describe_review : String → String
describe_review s =
    if s == "approved"
    then "approved"
    else if s == "changes_requested"
    then "requested changes on"
    else if s == "dismissed"
    then "had a review dismissed on"
    else "reviewed"

-- A review that was not there, and says something itself.
unfoldable pub is_new_review : List Review → Review → Bool
is_new_review previous r =
    not (exists (λ (b : Review). b.id == r.id) previous)
    && not (r.state == "commented" || r.state == "")

unfoldable pub review_event : Review → WatchEvent
review_event r = event review (r.author ^^ " " ^^ describe_review r.state ^^ " the pull request")

-- `reviewChanges`.
unfoldable pub review_changes : List Review → List Review → List WatchEvent
unfolding is_new_review
review_changes previous after = map review_event (select (is_new_review previous) after)

-- The thread of the map, which is the last one of the identifier.
unfoldable pub last_thread : String → List ReviewThread → Option ReviewThread
last_thread id [] = none
last_thread id (t ∷ ts) =
    let rest = last_thread id ts in
    elim rest [ some u ↦ some u | none ↦ if t.id == id then some t else none ]

abbrev pub last_comment : List Comment → Option Comment
last_comment [] = none
last_comment (c ∷ []) = some c
last_comment (c ∷ d ∷ cs) = last_comment (d ∷ cs)

abbrev pub reply_text : ReviewThread → Option Comment → List WatchEvent
reply_text t none = []
reply_text t (some c) =
    event thread (c.author ^^ " replied on " ^^ location t ^^ ": " ^^ first_line c.body) ∷ []

-- The loop body of `threadChanges`.
unfoldable pub thread_change : Option ReviewThread → ReviewThread → List WatchEvent
thread_change none t =
    event thread ("new review comment on " ^^ location t ^^ ": " ^^ summary t) ∷ []
thread_change (some known) t =
    if not known.resolved && t.resolved
    then event thread ("review comment resolved on " ^^ location t ^^ ": " ^^ summary t) ∷ []
    else if known.resolved && not t.resolved
    then event thread ("review comment reopened on " ^^ location t ^^ ": " ^^ summary t) ∷ []
    else if ltb (length known.comments) (length t.comments)
    then reply_text t (last_comment t.comments)
    else []

-- `threadChanges`.
unfoldable pub thread_changes : List ReviewThread → List ReviewThread → List WatchEvent
unfolding thread_change last_thread
thread_changes previous [] = []
thread_changes previous (t ∷ ts) =
    thread_change (last_thread t.id previous) t ++ thread_changes previous ts

-- `changesBetween`, once there is an observation before.
unfoldable pub changes_after : PullRequest → PullRequest → List WatchEvent
unfolding state_change checks_change head_change comment_changes review_changes thread_changes
changes_after previous after =
    state_change previous after
    ++ checks_change previous.checks after.checks
    ++ head_change previous.head_sha after.head_sha
    ++ comment_changes previous.comments after.comments
    ++ review_changes previous.reviews after.reviews
    ++ thread_changes previous.threads after.threads

-- `changesBetween`: the first observation is not a change.
unfoldable pub changes_between : Option PullRequest → PullRequest → List WatchEvent
unfolding changes_after
changes_between none after = []
changes_between (some previous) after = changes_after previous after
