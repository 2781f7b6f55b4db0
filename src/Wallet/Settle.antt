-- ===== src/Wallet/Settle.antt =====
-- The four statements with which src/handlers/wallet.rs and src/commission.rs move money between two
-- users.
pub mod Exact
pub mod Books
pub mod Pays
pub mod Succeeds
use ppv_stream_rust.Prelude.{ℕ, ◌+◌, String, Option, none, some, if◌then◌else◌, List, ◌∷◌, ◌||◌}
use ppv_stream_rust.Prelude.Int.{ℤ}
use ppv_stream_rust.Prelude.Attempt.{Attempt, done, stopped, ◌>>=◌, or_stop}
use ppv_stream_rust.Tables.{Store, NewTxn, set_balance, insert_txn, row_of}
use ppv_stream_rust.Transaction.{
  Stmt, update_first, update_second, insert_first, insert_second, Faults, Tx, execute,
}

abbrev pub update_balance : Faults → Stmt → String → ℤ → Tx → Option Tx
update_balance fails q id v =
    execute fails q (λ s. some (record s { users = set_balance id v s.users }))

-- The four statements with which `wallet_transfer`, `wallet_pay_video` and
-- `process_affiliate_commission` move money: the payer's new balance, the payee's, and a ledger row
-- for each side. The first that fails is named.
unfoldable pub settle : Faults → String → ℤ → String → ℤ → NewTxn → NewTxn → Tx → Attempt Stmt Tx
settle fails payer payer_new payee payee_new out in' tx = do
  debited ← or_stop (update_balance fails update_first payer payer_new tx) update_first
  credited ← or_stop (update_balance fails update_second payee payee_new debited) update_second
  listed ← or_stop (execute fails insert_first (insert_txn out) credited) insert_first
  or_stop (execute fails insert_second (insert_txn in') listed) insert_second

-- The tables that these four statements leave.
unfoldable pub settled : String → ℤ → String → ℤ → NewTxn → NewTxn → Store → Store
settled payer payer_new payee payee_new out in' s = record s {
  users = set_balance payee payee_new (set_balance payer payer_new s.users);
  txns = row_of (s.next_txn + 1) in' ∷ row_of s.next_txn out ∷ s.txns;
  next_txn = s.next_txn + 1 + 1;
}
