-- ===== src/Messaging/Inbox.antt =====
-- Reading an inbox.
use lac.Base.{
  String, List, [], ◌∷◌, ◌≡◌, refl, exists, exists-update_where-same, ℤ, map, order_by, select,
  update_where, if◌then◌else◌,
}
use lac.Base.Result.{ok, run_tx}
use lac.Core.Time.{Time}
use lac.Core.Message.{Message}
use lac.Store.{Db}
use lac.Store.Messages
use lac.Store.Messages.{
  unacknowledged, outstanding, unread, scan_message, sent_before, read_row, is_empty, pending, take,
  inbox_limit,
}
use lac.Messaging.Post.{Service, inbox, run, ids_of, and_then}

-- The inbox reads the deliveries only through who has which message outstanding.
unacknowledged_lem :
    (agent : String) (db db' : Db)
    → db'.messages ≡ db.messages
    → ((m : String)
        → exists (outstanding agent m) db'.deliveries ≡ exists (outstanding agent m) db.deliveries)
    → unacknowledged agent db' ≡ unacknowledged agent db
unfolding unacknowledged
unacknowledged_lem agent db db' same h =
    λ i. map scan_message (order_by sent_before (select (λ m. h m.id i) (same i)))

-- Marking messages as delivered always succeeds and acknowledges none.
marks :
    (agent : String) (ids : List String) (now : Time) (s : Service)
    → (t : Service) × (run (Messages.mark_delivered agent ids now) s ≡ (ok tt, t))
      × (unacknowledged agent t.db ≡ unacknowledged agent s.db)
unfolding run run_tx Messages.mark_delivered
marks agent [] now s = (s, refl, refl)
marks agent (i ∷ ids) now s = (
  record s {
    db = record s.db {
      deliveries = update_where (unread agent (i ∷ ids)) (read_row now) s.db.deliveries;
    };
  },
  refl,
  unacknowledged_lem agent s.db _ refl λ m.
      exists-update_where-same (outstanding agent m) (unread agent (i ∷ ids)) (read_row now)
        s.db.deliveries λ d. unfold outstanding read_row in refl,
)

inbox_lem :
    (agent : String) (limit : ℤ) (now : Time) (s : Service)
    → (t : Service) × (inbox agent limit now (λ u. u) s
        ≡ (ok (take (inbox_limit limit) (unacknowledged agent s.db)), t))
      × (unacknowledged agent t.db ≡ unacknowledged agent s.db)
unfolding inbox run run_tx pending
inbox_lem agent limit now s = go (take (inbox_limit limit) (unacknowledged agent s.db))
  where
    go :
        (ms : List Message)
        → (t : Service) × ((if is_empty ms
              then (ok ms, s)
              else and_then
                  (run (Messages.mark_delivered agent (ids_of ms) now) s)
                  λ _ s2. (ok ms, s2))
            ≡ (ok ms, t))
          × (unacknowledged agent t.db ≡ unacknowledged agent s.db)
    go [] = (s, refl, refl)
    go (m ∷ ms) = let (t, ran, kept) = marks agent (ids_of (m ∷ ms)) now s in (t, rw ran refl, kept)

-- Reading is not acknowledging: reading an inbox always succeeds, and whoever reads it again, having
-- acknowledged nothing, gets the same messages.
pub inbox_reads_alike :
    (agent : String) (limit : ℤ) (now later : Time) (s : Service)
    → (inbox agent limit later (λ u. u) (inbox agent limit now (λ u. u) s).1).0
      ≡ ok (take (inbox_limit limit) (unacknowledged agent s.db))
inbox_reads_alike agent limit now later s =
    let (t, ran, kept) = inbox_lem agent limit now s in
    let (u, again, _) = inbox_lem agent limit later t in rw (ran, again, kept) refl
