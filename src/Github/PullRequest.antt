-- ===== src/Github/PullRequest.antt =====
-- internal/github/pullrequest.go: what is tracked about a pull request. Its `ParseReference` is in
-- Github.Reference.
use lac.Base.{
  ℕ, String, ◌^^◌, ◌==◌, Bool, not, ◌&&◌, ◌||◌, Option, List, [], ◌∷◌, ℤ, select, count_where,
}
use lac.Core.Time.{Time}
use lac.Strings.{trim_space, before}
use lac.Strings.Numbers.{itoa_ℤ}

pub record Check : Type 0 where
  pub name : String
  pub state : String
  pub url : String

-- `Failed`.
unfoldable pub failed : Check → Bool
failed c =
    c.state == "failure"
    || c.state == "cancelled"
    || c.state == "timed_out"
    || c.state == "action_required"
    || c.state == "startup_failure"
    || c.state == "stale"

pub record ChecksSummary : Type 0 where
  pub state : String
  pub total : ℕ
  pub passed_count : ℕ
  pub failed_count : ℕ
  pub pending_count : ℕ
  pub checks : List Check

-- `Failing`.
unfoldable pub failing : ChecksSummary → List Check
unfolding failed
failing s = select failed s.checks

pub record Comment : Type 0 where
  pub id : String
  pub author : String
  pub body : String
  pub created_at : Option Time

pub record Review : Type 0 where
  pub id : String
  pub author : String
  pub state : String
  pub submitted_at : Option Time

pub record ReviewThread : Type 0 where
  pub id : String
  pub path : String
  pub line : ℤ
  pub resolved : Bool
  pub outdated : Bool
  pub comments : List Comment

pub record PullRequest : Type 0 where
  pub owner : String
  pub repository : String
  pub number : ℤ
  pub title : String
  pub url : String
  pub author : String
  pub state : String
  pub draft : Bool
  pub mergeable : String
  pub head_sha : String
  pub updated_at : Option Time
  pub checks : ChecksSummary
  pub comments : List Comment
  pub reviews : List Review
  pub threads : List ReviewThread

-- `Reference`, of a pull request and of a watch.
unfoldable pub reference : String → String → ℤ → String
reference owner repository number = owner ^^ "/" ^^ repository ^^ "#" ^^ itoa_ℤ number

-- `UnresolvedThreads`.
unfoldable pub unresolved_threads : PullRequest → ℕ
unresolved_threads p =
    count_where (λ (t : ReviewThread). not t.resolved && not t.outdated) p.threads

abbrev first_body : List Comment → String
first_body [] = ""
first_body (c ∷ comments) = before "\n" (trim_space c.body)

-- `Summary`.
unfoldable pub summary : ReviewThread → String
summary t = first_body t.comments
