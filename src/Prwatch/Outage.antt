-- ===== src/Prwatch/Outage.antt =====
-- internal/service/prwatch/prwatch.go: `recordFailure`, what is known of a pull request in an outage.
use lac.Base.{
  ℕ, ◌+◌, String, ◌==◌, ltb, true, some, List, [], ◌∷◌, ◌≡◌, refl, ◌∙◌, ap, arith, find,
  update_where, Option-cases, exists, inl, inr,
}
use lac.Base.Result.{Result, ok, run_tx}
use lac.Core.Time.{require_micros, from_required_micros, from_micros}
use lac.Core.Watch.{Watch}
use lac.Github.Client.{ForgeError, failed}
use lac.Store.{WatchRow}
use lac.Store.Watches
use lac.Store.Watches.{scan_watch, failed_row}
use lac.Store.Transaction.{in_transaction, commit}
use lac.Prwatch.State.{Outside, Service, run, signal}
use lac.Prwatch.Polling.{poll_with, record_failure, after_failure, unread, back_off}
use lac.Prwatch.Telling.{SameWatches, chosen, record_event-SameWatches}

find-fail :
    (id reason : String) (at next : ℕ) (rows : List WatchRow) (row : WatchRow)
    → find (λ (w : WatchRow). w.id == id) rows ≡ some row
    → (find
          (λ (w : WatchRow). w.id == id)
          (update_where (λ w. w.id == id) (failed_row reason at next) rows)
        ≡ some (failed_row reason at next row))
      × (exists (λ w. w.id == id) rows ≡ true)
unfolding find update_where exists failed_row
find-fail id reason at next [] row h = absurd (ground arith)
find-fail id reason at next (w ∷ rows) row h = ground (arith, find-fail id reason at next rows row)

by_id_lem :
    (id : String) (s : Service) (row : WatchRow)
    → find (λ (w : WatchRow). w.id == id) s.post.db.watches ≡ some row
    → (run (Watches.by_id id) s).0 ≡ ok (scan_watch row)
unfolding run in_transaction commit Watches.by_id run_tx
by_id_lem id s row h = rw h refl

-- The service after the statement of `recordFailure`.
abbrev with_failure : String → String → ℕ → ℕ → Service → Service
with_failure id reason at next s = record s {
  post = record s.post {
    db = record s.post.db {
      watches = update_where (λ w. w.id == id) (failed_row reason at next) s.post.db.watches;
    };
  };
}

stored_failure_lem :
    (id reason : String) (at next : ℕ) (s : Service)
    → exists (λ w. w.id == id) s.post.db.watches ≡ true
    → run (Watches.record_failure id reason at next) s ≡ (ok tt, with_failure id reason at next s)
unfolding run in_transaction commit Watches.record_failure run_tx
stored_failure_lem id reason at next s h = rw h refl

by_id_row :
    (id : String) (s : Service) (stored : Watch)
    → (run (Watches.by_id id) s).0 ≡ ok stored
    → (row : WatchRow) × (find (λ (w : WatchRow). w.id == id) s.post.db.watches ≡ some row)
      × (scan_watch row ≡ stored)
by_id_row id s stored h =
    elim (Option-cases (find (λ (w : WatchRow). w.id == id) s.post.db.watches)) [
      | inl missing ↦ absurd (unfold run in_transaction commit Watches.by_id run_tx in ground arith)
      | inr (row, found) ↦
          (row, found, unfold run in_transaction commit Watches.by_id run_tx in ground arith)
    ]

-- The end of `recordFailure` returns the error and leaves the watches alone.
after_failure_lem :
    (o : Outside) (w : Watch) (cause : ForgeError) (s : Service)
    → ((after_failure o w cause (ok tt, s)).0 ≡ unread cause)
      × ((after_failure o w cause (ok tt, s)).1.post.db.watches ≡ s.post.db.watches)
unfolding signal SameWatches
after_failure_lem o w cause s = (
  refl,
  chosen (λ (t : Service). t.post.db.watches) s.post.db.watches (ltb 0 w.failures) _ _ refl
      (record_event-SameWatches o w _ s),
)

record_failure_lem :
    (o : Outside) (w : Watch) (cause : ForgeError) (s : Service) (r : Result (Unit {0}) × Service)
    → run
        (Watches.record_failure w.id
          (o.error_text cause)
          o.now
          (o.now + back_off o.random s.options.interval (w.failures + 1)))
        s
      ≡ r
    → record_failure o w cause s ≡ after_failure o w cause r
unfolding record_failure
record_failure_lem o w cause s r ran = ap (after_failure o w cause) ran

-- When the forge cannot be read, a watch that is stored keeps everything that the last observation
-- found: only its count of failures grows by one, the error and its time are those of now, and the
-- next poll waits for the back-off, times rounded down to microseconds. The poll returns the error.
pub failed_poll_keeps_the_observation :
    (o : Outside) (w stored : Watch) (cause : ForgeError) (s : Service)
    → (run (Watches.by_id w.id) s).0 ≡ ok stored
    → ((poll_with o w (failed cause) s).0 ≡ unread cause)
      × ((run (Watches.by_id w.id) (poll_with o w (failed cause) s).1).0
          ≡ ok (record stored {
            failures = stored.failures + 1;
            last_error = o.error_text cause;
            last_error_at = some (from_required_micros (require_micros o.now));
            next_poll_at =
                from_required_micros
                  (require_micros (o.now + back_off o.random s.options.interval (w.failures + 1)));
          }))
unfolding poll_with
failed_poll_keeps_the_observation o w stored cause s h =
    let (row, found, scanned) = by_id_row w.id s stored h in
    let next = o.now + back_off o.random s.options.interval (w.failures + 1) in
    let reason = o.error_text cause in
    let (changed, there) = find-fail w.id reason o.now next s.post.db.watches row found in
    let ran = stored_failure_lem w.id reason o.now next s there in
    let (returned, alike) = after_failure_lem o w cause (with_failure w.id reason o.now next s) in
    let after = (after_failure o w cause (ok tt, with_failure w.id reason o.now next s)).1 in
    let ended = record_failure_lem o w cause s _ ran in
    rw (ended, returned)
      (
        refl,
        by_id_lem w.id after (failed_row reason o.now next row) (rw alike changed)
            ∙ rw (← scanned) unfold scan_watch failed_row from_micros in refl,
      )
