-- ===== src/Core/Watch.antt =====
-- internal/core/watch.go: pull requests that are watched, and what changed about them.
use lac.Base.{
  ℕ, ◌-◌, String, ◌==◌, Bool, true, ◌||◌, Option, none, some, ltb, if◌then◌else◌, ℤ, pos, le_ℤ,
}
use lac.Base.Result.{Error, invalid_argument}
use lac.Core.Time.{Time}
use lac.Github.PullRequest.{PullRequest}

-- `Snapshot` is the JSON of the last good observation, `none` before the first one.
pub record Watch : Type 0 where
  pub id : String
  pub owner : String
  pub repository : String
  pub number : ℤ
  pub account : String
  pub snapshot : Option PullRequest
  pub title : String
  pub state : String
  pub draft : Bool
  pub checks_state : String
  pub unresolved : ℕ
  pub observed_at : Option Time
  pub failures : ℕ
  pub last_error : String
  pub last_error_at : Option Time
  pub next_poll_at : Time
  pub created_at : Time

-- `Stale`; `fresh_for` is a duration that is not negative.
unfoldable pub is_stale : Watch → Time → ℕ → Bool
is_stale w now fresh_for = elim w.observed_at [
  | none ↦ true
  | some at ↦ ltb 0 w.failures || ltb fresh_for (now - at)
]

-- `Validate`.
unfoldable pub validate : Watch → Option Error
validate w =
    if w.id == ""
    then some invalid_argument
    else if w.owner == "" || w.repository == ""
    then some invalid_argument
    else if le_ℤ w.number (pos 0)
    then some invalid_argument
    else none

pub data WatchEventKind : Type 0 where
  checks state comment review thread commits unreachable recovered : WatchEventKind

-- The number of an event is its place in the table. `at` is `none` for the zero time.
pub record WatchEvent : Type 0 where
  pub watch_id : String
  pub kind : WatchEventKind
  pub summary : String
  pub at : Option Time
