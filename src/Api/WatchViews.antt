-- ===== src/Api/WatchViews.antt =====
-- internal/api/watches.go: what clients see of a pull request. The number of an event, its place in
-- the table, is not part of its view.
use lac.Base.{ℕ, String, Bool, Option, none, some, List, [], map, ℤ, pos}
use lac.Base.Result.{Result, ok, err}
use lac.Core.Time.{Time}
use lac.Core.Watch.{Watch, WatchEvent, WatchEventKind}
use lac.Github.PullRequest.{PullRequest, Comment, Check, ReviewThread, reference}
use lac.Prwatch.State.{Service}
use lac.Prwatch.Watching
use lac.Api.State.{Texts}

pub record WatchView : Type 0 where
  pub id : String
  pub reference : String
  pub title : String
  pub url : String
  pub state : String
  pub draft : Bool
  pub checks : String
  pub unresolved_threads : ℕ
  pub observed_at : String
  pub stale : Bool
  pub last_error : String
  pub failures : ℕ

pub record CheckView : Type 0 where
  pub name : String
  pub state : String
  pub url : String

pub record PullCommentView : Type 0 where
  pub author : String
  pub body : String
  pub created_at : String

pub record ThreadView : Type 0 where
  pub id : String
  pub path : String
  pub line : ℤ
  pub resolved : Bool
  pub outdated : Bool
  pub comments : List PullCommentView

pub record WatchEventView : Type 0 where
  pub kind : WatchEventKind
  pub summary : String
  pub at : String

pub record WatchDetail : Type 0 where
  pub watch : WatchView
  pub checks : List CheckView
  pub threads : List ThreadView
  pub comments : List PullCommentView
  pub changes : List WatchEventView

-- `formatTime` of a time that may be unset.
abbrev format_optional : Texts → Option Time → String
format_optional texts none = ""
format_optional texts (some t) = texts.format_time t

abbrev url_of : Option PullRequest → String
url_of none = ""
url_of (some observation) = observation.url

-- `viewOfWatch`.
unfoldable pub view_of_watch : Texts → Time → Service → Watch → WatchView
unfolding reference Watching.stale
view_of_watch texts now s w = record {
  id = w.id;
  reference = reference w.owner w.repository w.number;
  title = w.title;
  url = url_of w.snapshot;
  state = w.state;
  draft = w.draft;
  checks = w.checks_state;
  unresolved_threads = w.unresolved;
  observed_at = format_optional texts w.observed_at;
  stale = Watching.stale w now s;
  last_error = w.last_error;
  failures = w.failures;
}

-- `viewsOfPullComments`.
unfoldable pub views_of_pull_comments : Texts → List Comment → List PullCommentView
views_of_pull_comments texts = map λ (c : Comment). record {
  author = c.author;
  body = c.body;
  created_at = format_optional texts c.created_at;
}

abbrev view_of_check : Check → CheckView
view_of_check c = record { name = c.name; state = c.state; url = c.url }

abbrev view_of_thread : Texts → ReviewThread → ThreadView
unfolding views_of_pull_comments
view_of_thread texts t = record {
  id = t.id;
  path = t.path;
  line = t.line;
  resolved = t.resolved;
  outdated = t.outdated;
  comments = views_of_pull_comments texts t.comments;
}

-- A detail that shows the observation, when there is one.
abbrev observed : Texts → WatchView → Option PullRequest → WatchDetail
unfolding views_of_pull_comments
observed texts view none = record {
  watch = view;
  checks = [];
  threads = [];
  comments = [];
  changes = [];
}
observed texts view (some p) = record {
  watch = view;
  checks = map view_of_check p.checks.checks;
  threads = map (view_of_thread texts) p.threads;
  comments = views_of_pull_comments texts p.comments;
  changes = [];
}

abbrev view_of_event : Texts → WatchEvent → WatchEventView
view_of_event texts e = record {
  kind = e.kind;
  summary = e.summary;
  at = format_optional texts e.at;
}

-- Changes that cannot be read are left out.
abbrev with_changes : Texts → WatchDetail → Result (List WatchEvent) → WatchDetail
with_changes texts detail (ok events) = record detail { changes = map (view_of_event texts) events }
with_changes texts detail (err e) = detail

-- `detailOf`.
unfoldable pub detail_of : Texts → Time → Watch → Service → WatchDetail × Service
unfolding view_of_watch observed Watching.events
detail_of texts now w s =
    let (changes, s') = Watching.events w.id (pos 20) s in
    (with_changes texts (observed texts (view_of_watch texts now s w) w.snapshot) changes, s')
