-- ===== src/Store/ServiceOrder.antt =====
-- The order of service is total: what `Waiting` returns is sorted by it.
use lac.Base.{true, false, ◌≡◌, arith, text_lt_asymm, text_ge_trans}
use lac.Store.{QueueRow}
use lac.Store.Queue.{served_before}

pub served_before-asymm : (a b : QueueRow) → served_before a b ≡ true → served_before b a ≡ false
unfolding served_before
served_before-asymm a b h = ground (arith, text_lt_asymm a.id b.id)

pub served_before-ge_trans :
    (c b a : QueueRow)
    → served_before c b ≡ false
    → served_before b a ≡ false
    → served_before c a ≡ false
unfolding served_before
served_before-ge_trans c b a h k = ground (arith, text_ge_trans c.id b.id a.id)
