-- ===== src/Wallet/Requests.antt =====
-- src/handlers/wallet.rs: `wallet_deposit` and `wallet_withdraw`.
pub mod Withdraw
pub mod Deposit
use ppv_stream_rust.Prelude.{String, Option, none, some, if◌then◌else◌, or_else}
use ppv_stream_rust.Prelude.Int.{ℤ, pos, ltb_ℤ}
use ppv_stream_rust.Prelude.Word.{sub64}
use ppv_stream_rust.Prelude.Attempt.{Attempt, done, stopped, ◌>>=◌, ◌>>◌, or_stop, stop_if}
use ppv_stream_rust.Tables.{Store, NewTxn, TxnType, Status, find_user, balance_of, insert_txn}
use ppv_stream_rust.Transaction.{Stmt, Faults, Tx, opened, execute, commit_tx}
use ppv_stream_rust.Wallet.Settle.{update_balance}
use ppv_stream_rust.Wallet.{
  Session, Error, Reply, min_deposit_cents, min_withdrawal_cents, failed, deposit_submitted,
  withdrawal_submitted,
}

-- The row of a request that waits for an administrator.
abbrev pub request_row : TxnType → String → ℤ → ℤ → Option String → NewTxn
request_row kind uid amount after memo = record {
  user_id = uid;
  txn_type = kind;
  amount_cents = amount;
  balance_after = after;
  status = Status.pending;
  ref_user_id = none;
  note = memo;
}

-- `wallet_deposit`: no transaction; the balance is only recorded in the row, 0 if its query fails.
unfoldable pub wallet_deposit : Faults → Session → ℤ → Option String → Store → Reply × Store
wallet_deposit fails none amount memo s = (failed Error.not_logged_in, s)
wallet_deposit fails (some (uid, _)) amount memo s =
    let cur_bal = if fails Stmt.select_first then pos 0 else balance_of s.users uid in
    let row = request_row TxnType.deposit uid amount cur_bal memo in
    let inserted = if fails Stmt.insert_first then none else insert_txn row s in
    if ltb_ℤ amount min_deposit_cents
    then (failed (Error.below_minimum min_deposit_cents), s)
    else elim inserted [
      | none ↦ (failed (Error.db_failed Stmt.insert_first), s)
      | some s' ↦ (deposit_submitted s.next_txn, s')
    ]

-- The body of `wallet_withdraw` up to its `match ins`.
unfoldable pub withdraw_body : Faults → String → ℤ → Option String → Store → Attempt Error (Tx × ℤ)
withdraw_body fails uid amount memo s = do
  stop_if (ltb_ℤ amount min_withdrawal_cents) (Error.below_minimum min_withdrawal_cents)
  stop_if (fails Stmt.begin) (Error.db_failed Stmt.begin)
  stop_if (fails Stmt.select_row) Error.user_not_found
  user ← or_stop (find_user uid s.users) Error.user_not_found
  let bal = user.balance_cents
  stop_if (ltb_ℤ bal amount) (Error.insufficient_balance bal)
  let new_bal = sub64 bal amount
  debited ←
      or_stop (update_balance fails Stmt.update_first uid new_bal (opened s))
        (Error.db_failed Stmt.update_first)
  listed ←
      or_stop
        (execute fails Stmt.insert_first
          (insert_txn (request_row TxnType.withdrawal uid amount new_bal memo)) debited)
        (Error.db_failed Stmt.insert_first)
  done (listed, new_bal)

-- `wallet_withdraw`: the result of the COMMIT is not looked at.
unfoldable pub wallet_withdraw : Faults → Session → ℤ → Option String → Store → Reply × Store
wallet_withdraw fails none amount memo s = (failed Error.not_logged_in, s)
wallet_withdraw fails (some (uid, _)) amount memo s = elim (withdraw_body fails uid amount memo s) [
  | stopped e ↦ (failed e, s)
  | done (tx, new_bal) ↦ (withdrawal_submitted s.next_txn new_bal, or_else (commit_tx fails tx s) s)
]
