-- ===== src/Wallet/Admin/Overtaken.antt =====
-- `admin_wallet_complete` when a rejection comes between its two statements.
use ppv_stream_rust.Prelude.{ℕ, String, ◌≡◌, false, Option, some, arith, eq_iff}
use ppv_stream_rust.Prelude.Int.{ℤ, pos, ◌+ℤ◌, ◌-ℤ◌, ◌<ℤ◌, int_laws}
use ppv_stream_rust.Prelude.Attempt.{done}
use ppv_stream_rust.Tables.{Store, Txn, TxnType, Status, find_txn, update_txn, balance_of}
use ppv_stream_rust.Tables.Ledger.{effect, ledger, ledger-update_txn, amount_positive}
use ppv_stream_rust.Tables.Sound.{IsSound}
use ppv_stream_rust.Transaction.{Stmt, Faults}
use ppv_stream_rust.Wallet.Admin.{mark, complete_update}

rejected_row_counts :
    (t : Txn)
    → t.status ≡ Status.rejected
    → t.txn_type ≡ TxnType.withdrawal
    → effect t.user_id t ≡ pos 0
unfolding effect
rejected_row_counts t p k = rw (p, k) (ground arith)

completed_row_counts :
    (memo : Option String) (t : Txn)
    → t.txn_type ≡ TxnType.withdrawal
    → effect t.user_id (mark Status.completed memo t) ≡ pos 0 -ℤ t.amount_cents
unfolding effect
completed_row_counts memo t k = rw k (ground (arith, eq_iff t.user_id t.user_id))

differ_by :
    (b l l' a : ℤ) → b ≡ l → b ≡ l' → l' +ℤ pos 0 ≡ l +ℤ (pos 0 -ℤ a) → pos 0 <ℤ a → pos 0 <ℤ pos 0
differ_by b l l' a p q r h = grind (int_laws, p, q, r, h)

-- Where a completion has passed its check and the row is rejected before its update, the update, if
-- it does not fail, leaves tables in which the user's balance is not the sum of its rows: from tables
-- that satisfy the wallet's invariant it goes to tables that do not.
pub overtaken_completion_unsound :
    (fails : Faults) (txn_id : ℕ) (memo : Option String) (s : Store) (row : Txn)
    → IsSound s
    → find_txn txn_id s.txns ≡ some row
    → row.status ≡ Status.rejected
    → row.txn_type ≡ TxnType.withdrawal
    → fails Stmt.update_first ≡ false
    → ¬ IsSound (complete_update fails txn_id memo (done tt) s).1
unfolding complete_update
overtaken_completion_unsound fails txn_id memo s row h found p k kept h' =
    let s' : Store = record s { txns = update_txn (mark Status.completed memo) txn_id s.txns } in
    let after : balance_of s.users row.user_id ≡ ledger row.user_id s'.txns =
      rw kept at (h'.reconciled row.user_id) in
    let moved =
      ledger-update_txn row.user_id (mark Status.completed memo) txn_id s.next_txn s.txns found
        h.numbered in
    let zero = rejected_row_counts row p k in
    let less = completed_row_counts memo row k in
    let shift = rw (zero, less) at moved in
    let wrong =
      differ_by (balance_of s.users row.user_id) (ledger row.user_id s.txns)
        (ledger row.user_id s'.txns) row.amount_cents (h.reconciled row.user_id) after shift
        (amount_positive txn_id s.txns found h.positive) in
    absurd (omega (arith, wrong))
