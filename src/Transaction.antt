-- ===== src/Transaction.antt =====
-- What the handlers rely on of PostgreSQL through sqlx, a service that the repository does not hold.
-- Any statement may fail: which ones do is an argument, `Faults`. A failed statement aborts its
-- transaction, so that every later statement fails until the rollback, and nothing of a transaction
-- is seen unless its COMMIT succeeds. Rows locked by FOR UPDATE make a transaction one step.
use ppv_stream_rust.Prelude.{Bool, true, false, ◌||◌, Option, none, some, if◌then◌else◌}
use ppv_stream_rust.Tables.{Store}

-- The statements of a handler, by the part that each plays there.
pub data Stmt : Type 0 where
  begin commit : Stmt
  select_settings select_user select_video select_purchase select_name : Stmt
  lock_rows select_row select_first select_second : Stmt
  update_first update_second : Stmt
  insert_first insert_second insert_purchase insert_allow insert_commission : Stmt

abbrev pub Faults : Type 0
Faults = Stmt → Bool

-- No statement fails.
abbrev pub healthy : Faults
healthy _ = false

-- An open transaction: the tables as it sees them, and whether a statement has failed.
pub record Tx : Type 0 where
  pub store : Store
  pub aborted : Bool

abbrev pub opened : Store → Tx
opened s = record { store = s; aborted = false }

-- `if let Err(e) = query.execute(&mut *tx).await`: the transaction, if the statement succeeded.
abbrev pub execute : Faults → Stmt → (Store → Option Store) → Tx → Option Tx
execute fails q f tx =
    if tx.aborted || fails q
    then none
    else elim (f tx.store) [ none ↦ none | some s ↦ some (record tx { store = s }) ]

-- `fetch(...).await.ok().flatten()...unwrap_or(d)`: the handler goes on with `d` where the query
-- failed, and the transaction is aborted from there.
abbrev pub fetch_or {ℓ} : {A : Type ℓ} → Faults → Stmt → A → (Store → A) → Tx → A × Tx
fetch_or fails q d f tx =
    if tx.aborted || fails q then (d, record tx { aborted = true }) else (f tx.store, tx)

-- `let _ = query.fetch_all(&mut *tx).await`: the result is not looked at.
abbrev pub ignore : Faults → Stmt → Tx → Tx
ignore fails q tx = if tx.aborted || fails q then record tx { aborted = true } else tx

-- `tx.commit().await` on tables `before`: the tables afterwards, or an error.
abbrev pub commit_tx : Faults → Tx → Store → Option Store
commit_tx fails tx before =
    if fails commit then none else some (if tx.aborted then before else tx.store)
