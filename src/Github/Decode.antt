-- ===== src/Github/Decode.antt =====
-- internal/github/decode.go: GitHub's answer as the domain's pull request. `parse_time` is the
-- standard library's reading of RFC 3339, which gives the zero time for a text that is none.
use lac.Base.{
  ◌+◌, String, ◌==◌, Bool, true, false, ◌||◌, Option, none, some, List, [], ◌∷◌, ◌++◌, map, ltb,
  if◌then◌else◌, ℤ, pos,
}
use lac.Core.Time.{Time}
use lac.Strings.{to_lower, equal_fold}
use lac.Github.PullRequest.{
  Check, failed, ChecksSummary, Comment, Review, ReviewThread, PullRequest,
}

pub record CommentNode : Type 0 where
  pub id : String
  pub author : Option String
  pub body : String
  pub created_at : String

pub record ReviewNode : Type 0 where
  pub id : String
  pub author : Option String
  pub state : String
  pub submitted_at : String

pub record ThreadNode : Type 0 where
  pub id : String
  pub is_resolved : Bool
  pub is_outdated : Bool
  pub path : String
  pub line : Option ℤ
  pub comments : List CommentNode

-- `checkNode`, which is a check run or a status context.
pub record CheckNode : Type 0 where
  pub typename : String
  pub name : String
  pub status : String
  pub conclusion : String
  pub details_url : String
  pub context : String
  pub state : String
  pub target_url : String

pub record Rollup : Type 0 where
  pub state : String
  pub contexts : List CheckNode

-- `commits` is the list of the commits' rollups.
pub record PullRequestNode : Type 0 where
  pub number : ℤ
  pub title : String
  pub url : String
  pub state : String
  pub is_draft : Bool
  pub merged : Bool
  pub mergeable : String
  pub updated_at : String
  pub author : Option String
  pub head_sha : String
  pub comments : List CommentNode
  pub reviews : List ReviewNode
  pub threads : List ThreadNode
  pub commits : List (Option Rollup)

-- `login`.
unfoldable pub login : Option String → String
login none = "ghost"
login (some name) = name

-- The zero time for an empty text, too.
unfoldable pub parse_time : (String → Option Time) → String → Option Time
parse_time parse value = if value == "" then none else parse value

-- `stateOf`: a merged pull request is not merely closed.
unfoldable pub state_of : String → Bool → String
state_of state true = "merged"
state_of state false = to_lower state

-- `checkNode.convert`: a run that has not finished has no conclusion.
unfoldable pub convert_check : CheckNode → Check
convert_check c =
    if c.typename == "StatusContext"
    then record { name = c.context; state = to_lower c.state; url = c.target_url }
    else record {
      name = c.name;
      state =
          if to_lower c.conclusion == ""
          then (if equal_fold c.status "COMPLETED" then "unknown" else "pending")
          else to_lower c.conclusion;
      url = c.details_url;
    }

abbrev pub is_passed : Check → Bool
is_passed c = c.state == "success" || c.state == "neutral" || c.state == "skipped"

-- The loop body of `checks`.
unfoldable pub count_check : ChecksSummary → Check → ChecksSummary
unfolding failed
count_check s c = record {
  state = s.state;
  total = s.total + 1;
  passed_count =
      if failed c
      then s.passed_count
      else if is_passed c
      then s.passed_count + 1
      else s.passed_count;
  failed_count = if failed c then s.failed_count + 1 else s.failed_count;
  pending_count =
      if failed c
      then s.pending_count
      else if is_passed c
      then s.pending_count
      else s.pending_count + 1;
  checks = s.checks ++ c ∷ [];
}

unfoldable pub count_checks : ChecksSummary → List CheckNode → ChecksSummary
unfolding convert_check count_check
count_checks s [] = s
count_checks s (n ∷ nodes) = count_checks (count_check s (convert_check n)) nodes

-- The last `switch` of `checks`: the checks are trusted before GitHub's own rollup.
unfoldable pub settle_state : ChecksSummary → ChecksSummary
settle_state s = record s {
  state =
      if ltb 0 s.failed_count
      then "failure"
      else if ltb 0 s.pending_count
      then "pending"
      else if ltb 0 s.total
      then "success"
      else s.state;
}

abbrev pub no_checks : String → ChecksSummary
no_checks state = record {
  state = state;
  total = 0;
  passed_count = 0;
  failed_count = 0;
  pending_count = 0;
  checks = [];
}

-- `checks`.
unfoldable pub checks_of : List (Option Rollup) → ChecksSummary
unfolding count_checks settle_state
checks_of [] = no_checks "unknown"
checks_of (none ∷ rest) = no_checks "unknown"
checks_of (some rollup ∷ rest) =
    settle_state (count_checks (no_checks (to_lower rollup.state)) rollup.contexts)

abbrev line_or_zero : Option ℤ → ℤ
line_or_zero none = pos 0
line_or_zero (some n) = n

module _ (parse : String → Option Time) where
  -- `commentNode.convert`.
  unfoldable pub convert_comment : CommentNode → Comment
  unfolding login parse_time
  convert_comment c = record {
    id = c.id;
    author = login c.author;
    body = c.body;
    created_at = parse_time parse c.created_at;
  }

  unfoldable pub convert_review : ReviewNode → Review
  unfolding login parse_time
  convert_review r = record {
    id = r.id;
    author = login r.author;
    state = to_lower r.state;
    submitted_at = parse_time parse r.submitted_at;
  }

  unfoldable pub convert_thread : ThreadNode → ReviewThread
  unfolding convert_comment
  convert_thread t = record {
    id = t.id;
    path = t.path;
    line = line_or_zero t.line;
    resolved = t.is_resolved;
    outdated = t.is_outdated;
    comments = map convert_comment t.comments;
  }

  -- `pullRequestNode.convert`.
  unfoldable pub convert : PullRequestNode → String → String → PullRequest
  unfolding login state_of parse_time convert_comment convert_review convert_thread checks_of
  convert p owner repository = record {
    owner = owner;
    repository = repository;
    number = p.number;
    title = p.title;
    url = p.url;
    author = login p.author;
    state = state_of p.state p.merged;
    draft = p.is_draft;
    mergeable = p.mergeable;
    head_sha = p.head_sha;
    updated_at = parse_time parse p.updated_at;
    checks = checks_of p.commits;
    comments = map convert_comment p.comments;
    reviews = map convert_review p.reviews;
    threads = map convert_thread p.threads;
  }
