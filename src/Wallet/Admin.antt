-- ===== src/Wallet/Admin.antt =====
-- src/handlers/admin.rs: `admin_wallet_approve`, `admin_wallet_complete` and `admin_wallet_reject`.
pub mod Outcome
pub mod Credit
pub mod Approve
pub mod Reject
pub mod Complete
pub mod Twice
pub mod Overtaken
use ppv_stream_rust.Prelude.{
  ℕ, String, Bool, true, false, not, Option, none, some, if◌then◌else◌, is_some,
}
use ppv_stream_rust.Prelude.Int.{ℤ}
use ppv_stream_rust.Prelude.Attempt.{Attempt, done, stopped, ◌>>=◌, ◌>>◌, or_stop, stop_if}
use ppv_stream_rust.Tables.{
  Store, Txn, TxnType, Status, find_user, find_txn, update_txn, balance_of, credit,
}
use ppv_stream_rust.Transaction.{Stmt, Faults, Tx, opened, execute}
use ppv_stream_rust.Wallet.{
  Session, Error, Reply, finish, failed, deposit_approved, withdrawal_completed, txn_rejected,
}

abbrev pub is_pending : Status → Bool
is_pending Status.pending = true
is_pending _ = false

abbrev pub is_deposit : TxnType → Bool
is_deposit TxnType.deposit = true
is_deposit _ = false

abbrev pub is_withdrawal : TxnType → Bool
is_withdrawal TxnType.withdrawal = true
is_withdrawal _ = false

-- `ensure_admin_session`
unfoldable pub ensure_admin_session : Session → Attempt Error String
ensure_admin_session none = stopped Error.not_logged_in
ensure_admin_session (some (uid, admin)) = if admin then done uid else stopped Error.admin_only

-- UPDATE users SET balance_cents = balance_cents + $1 WHERE id = $2
abbrev pub credit_user : String → ℤ → Store → Option Store
credit_user uid amount s = elim (credit uid amount s.users) [
  | none ↦ none
  | some us ↦ some (record s { users = us })
]

-- UPDATE wallet_transactions SET status = ..., admin_note = ... WHERE id = $1
abbrev pub mark : Status → Option String → Txn → Txn
mark st memo t = record t { status = st; admin_note = memo }

abbrev pub mark_approved : ℤ → Option String → Txn → Txn
mark_approved bal memo t = record t {
  status = Status.approved;
  balance_after = bal;
  admin_note = memo;
}

unfoldable pub approve_body : Faults → ℕ → Option String → Store → Attempt Error (Tx × Reply)
approve_body fails txn_id memo s = do
  stop_if (fails Stmt.begin) (Error.db_failed Stmt.begin)
  stop_if (fails Stmt.select_row) (Error.db_failed Stmt.select_row)
  row ← or_stop (find_txn txn_id s.txns) Error.txn_not_found
  stop_if (not (is_pending row.status)) (Error.wrong_status row.status)
  stop_if (not (is_deposit row.txn_type)) Error.wrong_type
  stop_if (not (is_some (find_user row.user_id s.users))) (Error.db_failed Stmt.update_first)
  credited ←
      or_stop
        (execute fails Stmt.update_first (credit_user row.user_id row.amount_cents) (opened s))
        (Error.db_failed Stmt.update_first)
  let new_bal = balance_of credited.store.users row.user_id
  marked ←
      or_stop
        (execute fails Stmt.update_second
          (λ t. some (record t { txns = update_txn (mark_approved new_bal memo) txn_id t.txns }))
          credited)
        (Error.db_failed Stmt.update_second)
  done (marked, deposit_approved new_bal)

unfoldable pub admin_wallet_approve : Faults → Session → ℕ → Option String → Store → Reply × Store
admin_wallet_approve fails session txn_id memo s = elim (ensure_admin_session session) [
  | stopped e ↦ (failed e, s)
  | done _ ↦ finish fails s (approve_body fails txn_id memo s)
]

-- `admin_wallet_complete` reads the row and updates it in two statements, with no transaction: what
-- it has read,
unfoldable pub complete_check : Faults → ℕ → Store → Attempt Error (Unit {0})
complete_check fails txn_id s = do
  stop_if (fails Stmt.select_row) (Error.db_failed Stmt.select_row)
  row ← or_stop (find_txn txn_id s.txns) Error.txn_not_found
  stop_if (not (is_pending row.status)) (Error.wrong_status row.status)
  stop_if (not (is_withdrawal row.txn_type)) Error.wrong_type

-- and what it then writes, whatever the row holds by that time.
unfoldable pub complete_update :
    Faults → ℕ → Option String → Attempt Error (Unit {0}) → Store → Reply × Store
complete_update fails txn_id memo (stopped e) s = (failed e, s)
complete_update fails txn_id memo (done _) s =
    if fails Stmt.update_first then (failed (Error.db_failed Stmt.update_first), s) else (
      withdrawal_completed,
      record s { txns = update_txn (mark Status.completed memo) txn_id s.txns },
    )

unfoldable pub admin_wallet_complete : Faults → Session → ℕ → Option String → Store → Reply × Store
admin_wallet_complete fails session txn_id memo s = elim (ensure_admin_session session) [
  | stopped e ↦ (failed e, s)
  | done _ ↦ complete_update fails txn_id memo (complete_check fails txn_id s) s
]

unfoldable pub reject_body : Faults → ℕ → Option String → Store → Attempt Error (Tx × Reply)
reject_body fails txn_id memo s = do
  stop_if (fails Stmt.begin) (Error.db_failed Stmt.begin)
  stop_if (fails Stmt.select_row) (Error.db_failed Stmt.select_row)
  row ← or_stop (find_txn txn_id s.txns) Error.txn_not_found
  stop_if (not (is_pending row.status)) (Error.wrong_status row.status)
  refunded ←
      or_stop
        (if is_withdrawal row.txn_type
          then execute fails Stmt.update_first (credit_user row.user_id row.amount_cents) (opened s)
          else some (opened s))
        (Error.db_failed Stmt.update_first)
  marked ←
      or_stop
        (execute fails Stmt.update_second
          (λ t. some (record t { txns = update_txn (mark Status.rejected memo) txn_id t.txns }))
          refunded)
        (Error.db_failed Stmt.update_second)
  done (marked, txn_rejected (is_withdrawal row.txn_type))

unfoldable pub admin_wallet_reject : Faults → Session → ℕ → Option String → Store → Reply × Store
admin_wallet_reject fails session txn_id memo s = elim (ensure_admin_session session) [
  | stopped e ↦ (failed e, s)
  | done _ ↦ finish fails s (reject_body fails txn_id memo s)
]
