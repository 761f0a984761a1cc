-- ===== src/Messaging/MailboxSteps.antt =====
-- internal/service/messaging: the operations on the mailboxes.
use lac.Base.{
  ℕ, suc, String, ◌==◌, true, false, not, ◌&&◌, ◌||◌, List, [], ◌∷◌, ◌≡◌, refl, arith, exists,
  exists-append, exists-select-alike, exists-update_where-alike, exists-update_where-same, eq_iff,
  Bool-cases, inl, inr,
}
use lac.Base.Result.{ok, run_tx, for_each, return}
use lac.Base.Ensures.{bind_cases}
use lac.Core.Time.{Time}
use lac.Store.{Db}
use lac.Store.Messages
use lac.Store.Messages.{
  outstanding, is_delivery, deliver, unread, read_row, owed, acked_row, earlier, prunable, row_of,
}
use lac.Messaging.Post.{Service, run, acknowledge, prune}
use lac.Messaging.Durability.{acked_copy, new_copy, delivered_lem, deliver_cases}
use lac.Messaging.Mailboxes.{mailboxes, pruned}

copied : (m r a i : String) → outstanding a i (new_copy m r) ≡ (m == i && r == a)
unfolding outstanding
copied m r a i = ground arith

deliver-mailboxes :
    (m r a i : String) (s t : Db)
    → deliver m r s ≡ ok (tt, t)
    → exists (acked_copy m) s.deliveries ≡ false
    → mailboxes t a i ≡ (mailboxes s a i || (m == i && r == a))
unfolding deliver run_tx mailboxes exists
deliver-mailboxes m r a i s t h fresh = elim (Bool-cases (exists (is_delivery m r) s.deliveries)) [
  | inl there ↦
      let waits = delivered_lem m r s.deliveries there fresh in
      let kept : s.deliveries ≡ t.deliveries = ground arith in
      rw (← kept) (elim (Bool-cases (m == i && r == a)) [
        | inl e ↦
            let same : m ≡ i = ground (arith, eq_iff m i) in
            let reader : r ≡ a = ground (arith, eq_iff r a) in
            let held : exists (outstanding a i) s.deliveries ≡ true = rw (← same, ← reader) waits in
            ground arith
        | inr e ↦ ground arith
      ])
  | inr new ↦
      ground
        (arith, exists-append (outstanding a i) s.deliveries (new_copy m r ∷ []), copied m r a i)
]

module _ (m : String) where
  pub loop-mailboxes :
      (a i : String) (rs : List String) (s u : Db) (n : ℕ)
      → for_each (deliver m) rs s ≡ ok (n, u)
      → exists (acked_copy m) s.deliveries ≡ false
      → mailboxes u a i ≡ (mailboxes s a i || (m == i && exists (λ r. r == a) rs))
  unfolding for_each return exists
  loop-mailboxes a i [] s u n h fresh = let same : s ≡ u = ground arith in rw (← same) ground arith
  loop-mailboxes a i (r ∷ rs) s u n h fresh =
      let (_, t, first, rest) = bind_cases (deliver m r) _ s u n h in
      let (k, t', more, last) =
        bind_cases (for_each (deliver m) rs) (λ k. return (suc k)) t u n rest in
      let same : t' ≡ u = ground arith in
      let all : for_each (deliver m) rs t ≡ ok (k, u) = rw same at more in
      let (still, _, _) = deliver_cases m r s t first fresh in
      ground
        (arith, loop-mailboxes a i rs t u k all still, deliver-mailboxes m r a i s t first fresh)

pub acknowledge-mailboxes :
    (reader : String) (ids : List String) (now : Time) (s : Service) (a m : String)
    → mailboxes (acknowledge reader ids now s).1.db a m
      ≡ (mailboxes s.db a m && not (reader == a && exists (λ i. i == m) ids))
unfolding acknowledge run run_tx Messages.acknowledge mailboxes
acknowledge-mailboxes reader [] now s a m = unfold exists in ground arith
acknowledge-mailboxes reader (i ∷ ids) now s a m =
    exists-update_where-alike (outstanding a m) (owed reader (i ∷ ids)) (acked_row now) _
      s.db.deliveries
      λ d.
        unfold outstanding owed acked_row in
        ground (
          arith,
          eq_iff d.message_id m,
          eq_iff d.agent_id a,
          eq_iff d.agent_id reader,
          eq_iff reader a,
        )

pub mark-mailboxes :
    (reader : String) (ids : List String) (now : Time) (s : Service) (a m : String)
    → mailboxes (run (Messages.mark_delivered reader ids now) s).1.db a m ≡ mailboxes s.db a m
unfolding run run_tx Messages.mark_delivered mailboxes
mark-mailboxes reader [] now s a m = refl
mark-mailboxes reader (i ∷ ids) now s a m =
    exists-update_where-same (outstanding a m) (unread reader (i ∷ ids)) (read_row now)
      s.db.deliveries λ d. unfold outstanding read_row in refl

pub prune-mailboxes :
    (now : Time) (s : Service) (a m : String)
    → mailboxes (prune now s).1.db a m ≡ (mailboxes s.db a m && not (pruned now s m))
unfolding prune run run_tx Messages.prune_expired mailboxes pruned
prune-mailboxes now s a m = exists-select-alike (outstanding a m) _ _ s.db.deliveries λ d e.
    let same : d.message_id ≡ m = unfold outstanding in ground (arith, eq_iff d.message_id m) in
    rw same refl
