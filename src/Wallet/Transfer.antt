-- ===== src/Wallet/Transfer.antt =====
-- src/handlers/wallet.rs: `wallet_transfer`.
pub mod Outcome
pub mod Atomic
pub mod Succeeds
use ppv_stream_rust.Prelude.{String, Option, none, some, not, if◌then◌else◌, ◌==◌}
use ppv_stream_rust.Prelude.Int.{ℤ, pos, ltb_ℤ}
use ppv_stream_rust.Prelude.Word.{add64, sub64}
use ppv_stream_rust.Prelude.Attempt.{
  Attempt, done, stopped, ◌>>=◌, ◌>>◌, or_stop, stop_if, map_stop,
}
use ppv_stream_rust.Settings.{load_payment_settings}
use ppv_stream_rust.Text.{trim}
use ppv_stream_rust.Tables.{Store, TxnType, Status, NewTxn, find_username, balance_of}
use ppv_stream_rust.Transaction.{Stmt, Faults, Tx, opened, fetch_or, ignore}
use ppv_stream_rust.Wallet.Settle.{settle}
use ppv_stream_rust.Wallet.{Session, Error, Reply, min_transfer_cents, finish, transferred}

abbrev pub transfer_row : TxnType → String → ℤ → ℤ → String → Option String → NewTxn
transfer_row kind uid amount after other memo = record {
  user_id = uid;
  txn_type = kind;
  amount_cents = amount;
  balance_after = after;
  status = Status.completed;
  ref_user_id = some other;
  note = memo;
}

-- The transaction of a transfer from `uid` to the user `recip` called `name`. The order in which the
-- two rows are locked makes no difference to what it does.
unfoldable pub transfer_tx :
    Faults → String → String → String → ℤ → Option String → Store → Attempt Error (Tx × Reply)
transfer_tx fails uid recip name amount memo s = do
  stop_if (fails Stmt.begin) (Error.db_failed Stmt.begin)
  let locked = ignore fails Stmt.lock_rows (opened s)
  let (sender_bal, tx) =
      fetch_or fails Stmt.select_first (pos 0) (λ t. balance_of t.users uid) locked
  stop_if (ltb_ℤ sender_bal amount) (Error.insufficient_balance sender_bal)
  let (recip_bal, tx') =
      fetch_or fails Stmt.select_second (pos 0) (λ t. balance_of t.users recip) tx
  let sender_new = sub64 sender_bal amount
  let recip_new = add64 recip_bal amount
  moved ← map_stop Error.db_failed (
      settle fails uid sender_new recip recip_new
        (transfer_row TxnType.transfer_out uid amount sender_new recip memo)
        (transfer_row TxnType.transfer_in recip amount recip_new uid memo) tx')
  done (moved, transferred sender_new name amount)

unfoldable pub transfer_body :
    Faults → Session → String → ℤ → Option String → Store → Attempt Error (Tx × Reply)
transfer_body fails session to amount memo s = do
  stop_if
      (not
        (load_payment_settings (fails Stmt.select_settings)
          s.payment_settings).wallet_transfer_enabled)
      Error.disabled
  (uid, _) ← or_stop session Error.not_logged_in
  stop_if (ltb_ℤ amount min_transfer_cents) (Error.below_minimum min_transfer_cents)
  stop_if (fails Stmt.select_user) (Error.db_failed Stmt.select_user)
  recip ← or_stop (find_username (trim to) s.users) Error.recipient_not_found
  stop_if (recip.id == uid) Error.self_transfer
  transfer_tx fails uid recip.id recip.username amount memo s

-- `wallet_transfer`
unfoldable pub wallet_transfer :
    Faults → Session → String → ℤ → Option String → Store → Reply × Store
wallet_transfer fails session to amount memo s =
    finish fails s (transfer_body fails session to amount memo s)
