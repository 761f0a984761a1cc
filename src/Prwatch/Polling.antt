-- ===== src/Prwatch/Polling.antt =====
-- internal/service/prwatch/prwatch.go: reading a pull request, and what a poll records.
use lac.Base.{
  ℕ, zero, suc, ◌+◌, ◌-◌, ◌*◌, ◌/◌, String, ◌^^◌, ◌==◌, ◌||◌, Option, none, some, List, [], ◌∷◌,
  pos, pos_part, ltb, leb, if◌then◌else◌, length,
}
use lac.Base.Result.{Result, ok, err, Error}
use lac.Core.Time.{Duration, add_duration}
use lac.Core.Watch.{Watch, WatchEvent, unreachable, recovered}
use lac.Store.Watches
use lac.Strings.Numbers.{itoa}
use lac.Github.PullRequest.{PullRequest, unresolved_threads}
use lac.Github.Client.{Answer, answered, failed, ForgeError, not_visible}
use lac.Prwatch.Changes.{event, first_line, changes_between}
use lac.Prwatch.State.{
  Forge, Outside, Options, Service, minute, run, signal, record_event, record_events,
}

-- An observation, and the account that made it.
abbrev pub Sighting : Type 0
Sighting = Answer (PullRequest × String)

abbrev pub ask : Forge → Watch → String → Answer PullRequest
ask forge watch account = forge.pull_request account watch.owner watch.repository watch.number

abbrev pub seen_by : String → Answer PullRequest → Sighting
seen_by account (answered p) = answered (p, account)
seen_by account (failed e) = failed e

-- What to do after an answer: only "not found" is worth trying the next account for.
abbrev pub or_next : String → Answer PullRequest → Sighting → Sighting
or_next account (answered p) next = answered (p, account)
or_next account (failed not_visible) next = next
or_next account (failed e) next = failed e

-- The loop over the accounts; the one that was tried before is passed over.
unfoldable pub try_accounts : Forge → Watch → List String → Sighting
try_accounts forge watch [] = failed not_visible
try_accounts forge watch (a ∷ accounts) =
    let rest = try_accounts forge watch accounts in
    if a == watch.account then rest else or_next a (ask forge watch a) rest

-- The other logins are tried where there is more than one.
unfoldable pub try_others : Forge → Watch → Option (List String) → Sighting
unfolding try_accounts
try_others forge watch none = failed not_visible
try_others forge watch (some accounts) =
    if leb (length accounts) 1 then failed not_visible else try_accounts forge watch accounts

-- The active account, and then the others.
unfoldable pub read_active : Forge → Watch → Sighting
unfolding try_others
read_active forge watch = or_next "" (ask forge watch "") (try_others forge watch forge.accounts)

-- `read`: the account that saw it last time comes first.
unfoldable pub read : Forge → Watch → Sighting
unfolding read_active
read forge watch =
    let looked = read_active forge watch in
    if watch.account == ""
    then looked
    else or_next watch.account (ask forge watch watch.account) looked

abbrev pub max_back_off : ℕ
max_back_off = 15 * minute

-- The loop of `backoffFor`, which ends when it meets the cap.
unfoldable pub doubled : ℕ → ℕ → ℕ
doubled zero wait = wait
doubled (suc rounds) wait =
    let more = doubled rounds (wait * 2) in
    if leb max_back_off (wait * 2) then max_back_off else more

-- `backoffFor`: `random` gives a number below a quarter of the wait.
unfoldable pub back_off : (ℕ → ℕ) → Duration → ℕ → ℕ
unfolding doubled
back_off random interval failures =
    let wait = doubled (failures - 1) (pos_part interval) in wait + random (wait / 4)

-- `intervalFor`.
unfoldable pub interval_for : Options → PullRequest → Duration
interval_for options observation =
    if observation.state == "merged" || observation.state == "closed"
    then options.settled_interval
    else options.interval

-- What a poll comes to: the watch as it is now, or the error of the forge or of the database.
pub data Polled : Type 0 where
  polled : Watch → Polled
  unread : ForgeError → Polled
  unstored : Error → Polled

-- The end of `recordFailure`: the failure is said when it is the first.
abbrev pub after_failure :
    Outside → Watch → ForgeError → Result (Unit {0}) × Service → Polled × Service
after_failure o watch cause (err e, s) = (unstored e, s)
after_failure o watch cause (ok u, s) = (
  unread cause,
  signal watch.id (
      if ltb 0 watch.failures
      then s
      else record_event o watch
          (event unreachable ("github could not be reached: " ^^ first_line (o.error_text cause)))
          s),
)

-- `recordFailure`.
unfoldable pub record_failure : Outside → Watch → ForgeError → Service → Polled × Service
unfolding run signal back_off record_event
record_failure o watch cause s = after_failure o watch cause (
    run
      (Watches.record_failure watch.id (o.error_text cause) o.now
        (o.now + back_off o.random s.options.interval (watch.failures + 1)))
      s)

-- The watch that an observation makes of it.
unfoldable pub updated : Outside → Options → Watch → PullRequest → String → Watch
unfolding interval_for unresolved_threads
updated o options watch observation account = record watch {
  account = account;
  snapshot = some observation;
  title = observation.title;
  state = observation.state;
  draft = observation.draft;
  checks_state = observation.checks.state;
  unresolved = unresolved_threads observation;
  observed_at = some o.now;
  failures = 0;
  last_error = "";
  next_poll_at = add_duration o.now (interval_for options observation);
}

abbrev pub recovery : Watch → List WatchEvent
recovery watch =
    if ltb 0 watch.failures
    then event recovered
        ("github is answering again (after " ^^ itoa watch.failures ^^ " failed attempts)")
      ∷ []
    else []

-- The end of `poll`: the recovery and the changes are recorded, and who waits is woken.
abbrev pub after_observation :
    Outside → Watch → Watch → PullRequest → Result (Unit {0}) × Service → Polled × Service
after_observation o watch now_watch observation (err e, s) = (unstored e, s)
after_observation o watch now_watch observation (ok u, s) = (
  polled now_watch,
  signal watch.id (
      record_events o now_watch (changes_between watch.snapshot observation)
        (record_events o now_watch (recovery watch) s)),
)

-- `poll`.
unfoldable pub poll_with : Outside → Watch → Sighting → Service → Polled × Service
unfolding run signal updated record_events record_failure
poll_with o watch (failed cause) s = record_failure o watch cause s
poll_with o watch (answered (observation, account)) s =
    let now_watch = updated o s.options watch observation account in
    after_observation o watch now_watch observation (run (Watches.record_observation now_watch) s)

unfoldable pub poll : Outside → Watch → Service → Polled × Service
unfolding read poll_with
poll o watch s = poll_with o watch (read o.forge watch) s

abbrev pub poll_found : Outside → Result Watch × Service → Polled × Service
poll_found o (err e, s) = (unstored e, s)
poll_found o (ok watch, s) = poll o watch s

-- `Refresh`.
unfoldable pub refresh : Outside → String → Service → Polled × Service
unfolding run poll
refresh o watch_id s = poll_found o (run (Watches.by_id watch_id) s)

-- The loop of `Sweep`: what a poll comes to is recorded, and the sweep goes on.
unfoldable pub poll_all : Outside → List Watch → Service → Service
unfolding poll
poll_all o [] s = s
poll_all o (w ∷ watches) s = poll_all o watches (poll o w s).1

abbrev pub poll_due : Outside → Result (List Watch) × Service → ℕ × Service
poll_due o (err e, s) = (0, s)
poll_due o (ok watches, s) = (length watches, poll_all o watches s)

-- `Sweep`, of ten watches at most, for a context that does not end.
unfoldable pub sweep : Outside → Service → ℕ × Service
unfolding run poll_all
sweep o s = poll_due o (run (Watches.due o.now (pos 10)) s)
