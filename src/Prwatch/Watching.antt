-- ===== src/Prwatch/Watching.antt =====
-- internal/service/prwatch/prwatch.go: watching a pull request, and asking for what is known of it.
use lac.Base.{ℕ, suc, String, Bool, false, none, List, ℤ, pos_part, ◌/◌, ◌*◌, ltb, if◌then◌else◌}
use lac.Base.Result.{Result, ok, err, not_found, context_done}
use lac.Core.Time.{Time}
use lac.Core.Watch.{Watch, WatchEvent, is_stale}
use lac.Store.Watches
use lac.Github.Client.{not_visible}
use lac.Leasing.Waiters
use lac.Prwatch.State.{Outside, Options, Service, run}
use lac.Prwatch.Polling.{Polled, polled, unread, unstored, refresh}

-- The watch that `Watch` makes when there is none.
abbrev pub first_watch : String → String → String → ℤ → Time → Watch
first_watch id owner repository number now = record {
  id = id;
  owner = owner;
  repository = repository;
  number = number;
  account = "";
  snapshot = none;
  title = "";
  state = "unknown";
  draft = false;
  checks_state = "unknown";
  unresolved = 0;
  observed_at = none;
  failures = 0;
  last_error = "";
  last_error_at = none;
  next_poll_at = now;
  created_at = now;
}

abbrev made : Watch → Result (Unit {0}) × Service → Result Watch × Service
made w (ok u, s) = (ok w, record s { drawn = suc s.drawn })
made w (err e, s) = (err e, record s { drawn = suc s.drawn })

-- The watch on the reference, which is made when there is none.
unfoldable pub watch_on :
    Outside → String → String → ℤ → Result Watch × Service → Result Watch × Service
unfolding run
watch_on o owner repository number (ok w, s) = (ok w, s)
watch_on o owner repository number (err not_found, s) =
    let w = first_watch (o.fresh_id s.drawn) owner repository number o.now in
    made w (run (Watches.create w) s)
watch_on o owner repository number (err e, s) = (err e, s)

abbrev answer : Result Watch × Service → Polled × Service
answer (ok w, s) = (polled w, s)
answer (err e, s) = (unstored e, s)

-- After the first look: a reference that nobody can see is removed, and another failure is left to
-- the poller.
unfoldable pub after_first_look : String → Polled × Service → Polled × Service
unfolding run
after_first_look id (polled w, s) = (polled w, s)
after_first_look id (unread not_visible, s) = (unread not_visible, (run (Watches.delete id) s).1)
after_first_look id (unread e, s) = answer (run (Watches.by_id id) s)
after_first_look id (unstored e, s) = answer (run (Watches.by_id id) s)

abbrev look : Outside → String → Result (Unit {0}) × Service → Polled × Service
unfolding after_first_look refresh
look o id (err e, s) = (unstored e, s)
look o id (ok u, s) = after_first_look id (refresh o id s)

abbrev join : Outside → String → Result Watch × Service → Polled × Service
unfolding run look
join o agent_id (err e, s) = (unstored e, s)
join o agent_id (ok w, s) = look o w.id (run (Watches.subscribe w.id agent_id o.now) s)

-- `Watch`.
unfoldable pub watch : Outside → String → String → String → ℤ → Service → Polled × Service
unfolding run watch_on join
watch o agent_id owner repository number s =
    join o agent_id
      (watch_on o owner repository number (run (Watches.by_reference owner repository number) s))

-- `Unwatch`.
unfoldable pub unwatch : String → String → Service → Result (Unit {0}) × Service
unfolding run
unwatch agent_id watch_id = run (Watches.unsubscribe watch_id agent_id)

-- `Forget`.
unfoldable pub forget : String → Service → Result (Unit {0}) × Service
unfolding run
forget watch_id = run (Watches.delete watch_id)

-- `ByID`.
unfoldable pub by_id : String → Service → Result Watch × Service
unfolding run
by_id watch_id = run (Watches.by_id watch_id)

-- `ByReference`.
unfoldable pub by_reference : String → String → ℤ → Service → Result Watch × Service
unfolding run
by_reference owner repository number = run (Watches.by_reference owner repository number)

-- `Mine`.
unfoldable pub mine : String → Service → Result (List Watch) × Service
unfolding run
mine agent_id = run (Watches.list_for_agent agent_id)

-- `All`.
unfoldable pub all : Service → Result (List Watch) × Service
unfolding run
all = run Watches.list

-- `Events`.
unfoldable pub events : String → ℤ → Service → Result (List WatchEvent) × Service
unfolding run
events watch_id limit = run (Watches.events watch_id limit)

-- `Subscribers`.
unfoldable pub subscribers : String → Service → Result (List String) × Service
unfolding run
subscribers watch_id = run (Watches.subscribers watch_id)

-- `Stale`.
unfoldable pub stale : Watch → Time → Service → Bool
unfolding is_stale
stale w now s = is_stale w now (pos_part s.options.fresh_for)

-- `tickInterval`.
unfoldable pub tick_interval : Options → ℕ
tick_interval options =
    let tick = pos_part options.interval / 4 in
    if ltb tick (1000 * 1000 * 1000) then 1000 * 1000 * 1000 else tick

-- `Await`: `others` is what happens until its `select` returns, and `ended` says that it returned
-- for the end of the context.
unfoldable pub await : String → (Service → Service) → Bool → Service → Result Watch × Service
unfolding run
await watch_id others ended s =
    let (_, refreshed) = Waiters.watch watch_id s.refreshed in
    let later = others (record s { refreshed = refreshed }) in
    if ended then (err context_done, later) else run (Watches.by_id watch_id) later
