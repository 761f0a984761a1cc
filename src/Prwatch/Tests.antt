-- ===== src/Prwatch/Tests.antt =====
-- The watcher at a small example: one pull request, which alice watches.
use lac.Base.{
  ℕ, ◌+◌, ◌-◌, ◌*◌, ◌≤◌, ◌<◌, min, String, ◌==◌, true, false, none, some, [], ◌∷◌, ◌≡◌, refl, arith,
  pos, find, if◌then◌else◌, exists,
}
use lac.Base.Result.{run_tx, ok}
use lac.Core.Time.{from_required_micros, require_micros}
use lac.Core.Watch.{Watch}
use lac.Store.{WatchRow}
use lac.Store.Watches
use lac.Store.Watches.{scan_watch}
use lac.Store.Transaction.{in_transaction, commit}
use lac.Github.PullRequest.{PullRequest, ReviewThread}
use lac.Github.Client.{answered, failed, not_visible, unavailable}
use lac.Leasing.Example.{idle_db}
use lac.Leasing.Waiters.{new_waiters}
use lac.Prwatch.State.{Forge, Outside, Service, minute, run}
use lac.Prwatch.Polling.{back_off, max_back_off, poll_with, unread, read}
use lac.Prwatch.BackOff.{doubling, back_off_is_bounded}
use lac.Prwatch.Accounts.{IsTrue, HiddenFrom, others, read-IsTrue}
use lac.Prwatch.News.{Quiet, DistinctThreads, unchanged_pull_request_is_Quiet}
use lac.Prwatch.Outage.{failed_poll_keeps_the_observation}

abbrev thread : String → ReviewThread
thread id = record {
  id = id;
  path = "main.go";
  line = pos 3;
  resolved = false;
  outdated = false;
  comments = [];
}

abbrev change : PullRequest
change = record {
  owner = "sadeq";
  repository = "lac";
  number = pos 12;
  title = "a fix";
  url = "";
  author = "alice";
  state = "open";
  draft = false;
  mergeable = "mergeable";
  head_sha = "abc";
  updated_at = none;
  checks = record {
    state = "success";
    total = 0;
    passed_count = 0;
    failed_count = 0;
    pending_count = 0;
    checks = [];
  };
  comments = [];
  reviews = [];
  threads = thread "t1" ∷ thread "t2" ∷ [];
}

abbrev row : WatchRow
row = record {
  id = "w1";
  owner = "sadeq";
  repository = "lac";
  number = pos 12;
  account = "work";
  snapshot = some change;
  state = "open";
  draft = false;
  title = "a fix";
  checks_state = "success";
  unresolved = 2;
  observed_at = some 0;
  failures = 0;
  last_error = "";
  last_error_at = none;
  next_poll_at = 0;
  created_at = 0;
}

abbrev watched : Watch
unfolding scan_watch
watched = scan_watch row

-- A machine with two logins, of which the private one sees the pull request.
abbrev forge : Forge
forge = record {
  pull_request = λ account owner repository number.
      if account == "home" then answered change else failed not_visible;
  accounts = some ("work" ∷ "home" ∷ []);
}

abbrev half : ℕ → ℕ
half n = n - 1

abbrev outside : Outside
outside = record {
  forge = forge;
  now = 1000;
  random = half;
  fresh_id = λ n. "m1";
  error_text = λ e. "no route to host";
  encode = λ w e. "{}";
  json_valid = λ text. true;
  detail = λ m recipients. "";
}

abbrev service : Service
service = record {
  post = record {
    db = record idle_db {
      watches = row ∷ [];
      watch_subscribers = record { watch_id = "w1"; agent_id = "alice"; subscribed_at = 0 } ∷ [];
    };
    default_time_to_live = pos 0;
    retention = pos 0;
    notifier = none;
  };
  has_messaging = true;
  options = record {
    interval = pos minute;
    settled_interval = pos (30 * minute);
    fresh_for = pos (5 * minute);
  };
  sender_id = "";
  refreshed = new_waiters;
  drawn = 0;
}

back_off_is_bounded_example :
    (min max_back_off (doubling 2 minute) ≤ back_off half (pos minute) 3)
    × (4 * back_off half (pos minute) 3 < 5 * min max_back_off (doubling 2 minute))
back_off_is_bounded_example =
    back_off_is_bounded half (λ n positive. omega arith) minute 3 (omega arith) (omega arith)

read-IsTrue_example :
    IsTrue forge watched
      (HiddenFrom forge watched ("work" ∷ "" ∷ others (some ("work" ∷ "home" ∷ []))))
      (read forge watched)
unfolding scan_watch
read-IsTrue_example = read-IsTrue forge watched

unchanged_pull_request_is_Quiet_example :
    Quiet service.post.db (poll_with outside watched (answered (change, "home")) service).1.post.db
unfolding DistinctThreads exists scan_watch
unchanged_pull_request_is_Quiet_example =
    unchanged_pull_request_is_Quiet outside watched change "home" service refl refl
      (refl, (refl, tt))

failed_poll_keeps_the_observation_example :
    ((poll_with outside watched (failed unavailable) service).0 ≡ unread unavailable)
    × ((run (Watches.by_id "w1") (poll_with outside watched (failed unavailable) service).1).0
        ≡ ok (record watched {
          failures = 1;
          last_error = "no route to host";
          last_error_at = some (from_required_micros (require_micros 1000));
          next_poll_at =
              from_required_micros (require_micros (outside.now + back_off half (pos minute) 1));
        }))
unfolding scan_watch
failed_poll_keeps_the_observation_example =
    failed_poll_keeps_the_observation outside watched watched unavailable service
      (unfold run in_transaction commit run_tx Watches.by_id find in refl)
