-- ===== src/Store/Transaction.antt =====
-- store/sqlite/store.go: `InTransaction`.
use lac.Base.Result.{Tx, Result, ok, err, run_tx}
use lac.Store.{Db}

-- The end of a transaction: commits what was written when `fn` returned nil, and rolls back on any
-- error.
unfoldable pub commit : {A : Type 0} → Result (A × Db) → Db → Result A × Db
commit (ok (a, db')) db = (ok a, db')
commit (err e) db = (err e, db)

unfoldable pub in_transaction : {A : Type 0} → Tx Db A → Db → Result A × Db
unfolding run_tx commit
in_transaction fn db = commit (fn db) db
