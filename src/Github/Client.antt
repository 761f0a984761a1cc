-- ===== src/Github/Client.antt =====
-- internal/github/client.go: what the client makes of what `gh` did. Running `gh` is an argument: it
-- gives the decoded answer, or what it wrote and why it failed.
use lac.Base.{String, ◌==◌, Bool, Option, none, some, List, [], ◌∷◌, if◌then◌else◌, exists}
use lac.Core.Time.{Time}
use lac.Strings
use lac.Strings.{to_lower, contains, equal_fold, trim_space, cut}
use lac.Github.PullRequest.{PullRequest}
use lac.Github.Decode.{PullRequestNode, convert}
use lac.Github.Accounts.{Tokens, get, put, forget}

-- The errors that callers act on, and any other.
pub data ForgeError : Type 0 where
  unavailable not_visible no_cli refused : ForgeError

pub data Answer (A : Type 0) : Type 0 where
  answered : A → Answer A
  failed : ForgeError → Answer A

abbrev pub mentions : String → List String → Bool
mentions message parts = exists (contains message) parts

-- `classify`: what is not recognised is taken for a passing outage, as are the messages that the
-- source lists for one. The standard error decides, or the
-- standard output where there is none.
unfoldable pub classify_message : String → ForgeError
unfolding cut
classify_message message =
    if mentions message ("not found" ∷ "could not resolve to" ∷ [])
    then not_visible
    else if mentions message
        ("authentication" ∷ "not logged in" ∷ "gh auth login" ∷ "bad credentials" ∷ [])
    then no_cli
    else unavailable

unfoldable pub classify : String → String → ForgeError
unfolding classify_message
classify stdout stderr =
    if to_lower stderr == ""
    then classify_message (to_lower stdout)
    else classify_message (to_lower stderr)

-- `firstLine`.
unfoldable pub first_line : String → String
first_line text =
    if trim_space text == ""
    then "gh gave no explanation"
    else Strings.before "\n" (trim_space text)

-- The decoded response of the query: the types of its errors, and the pull request if there is one.
pub record Response : Type 0 where
  pub errors : List String
  pub pull_request : Option PullRequestNode

-- The end of `PullRequest`.
unfoldable pub read_response :
    (String → Option Time) → String → String → Response → Answer PullRequest
read_response parse owner repository r = elim r.errors [
  | first ∷ rest ↦ if equal_fold first "NOT_FOUND" then failed not_visible else failed refused
  | [] ↦ elim r.pull_request [
    | none ↦ failed not_visible
    | some node ↦ answered (convert parse node owner repository)
  ]
]

-- What running `gh` gives: the token of an account, and the response to the query with a token in the
-- environment or as the active account.
pub record Gh : Type 0 where
  pub token : String → Answer String
  pub query : Option String → Answer Response

-- A token that was asked for is kept, unless it is empty.
abbrev pub keep_token : String → Answer String → Tokens → Answer String × Tokens
keep_token account (failed e) tokens = (failed e, tokens)
keep_token account (answered output) tokens =
    if trim_space output == ""
    then (failed no_cli, tokens)
    else (answered (trim_space output), put account (trim_space output) tokens)

-- `tokenFor`.
unfoldable pub token_for : Gh → String → Tokens → Answer String × Tokens
token_for gh account tokens = elim (get account tokens) [
  | some token ↦ (answered token, tokens)
  | none ↦ keep_token account (gh.token account) tokens
]

-- The token of an account that turns out not to be logged in is forgotten.
abbrev pub after_run : String → Tokens → Answer Response → Answer Response × Tokens
after_run account tokens (failed no_cli) = (failed no_cli, forget account tokens)
after_run account tokens answer = (answer, tokens)

abbrev pub with_token : Gh → String → Answer String × Tokens → Answer Response × Tokens
with_token gh account (failed e, tokens) = (failed e, tokens)
with_token gh account (answered token, tokens) = after_run account tokens (gh.query (some token))

-- `runAs`.
unfoldable pub run_as : Gh → String → Tokens → Answer Response × Tokens
unfolding token_for
run_as gh account tokens = with_token gh account (token_for gh account tokens)

abbrev pub read_answer :
    (String → Option Time) → String → String → Answer Response → Answer PullRequest
read_answer parse owner repository (failed e) = failed e
read_answer parse owner repository (answered r) = read_response parse owner repository r

-- `PullRequest`.
unfoldable pub pull_request :
    Gh → (String → Option Time) → String → String → String → Tokens → Answer PullRequest × Tokens
unfolding run_as
pull_request gh parse account owner repository tokens =
    if account == ""
    then (read_answer parse owner repository (gh.query none), tokens)
    else let (answer, tokens') = run_as gh account tokens in
      (read_answer parse owner repository answer, tokens')
