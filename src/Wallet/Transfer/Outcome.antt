-- ===== src/Wallet/Transfer/Outcome.antt =====
-- What a transfer that is answered with success has done.
use ppv_stream_rust.Prelude.{String, ◌≡◌, true, false, Option, arith, is_some}
use ppv_stream_rust.Prelude.Int.{ℤ, pos, ◌≤ℤ◌}
use ppv_stream_rust.Prelude.Word.{add64, sub64}
use ppv_stream_rust.Prelude.Attempt.{done}
use ppv_stream_rust.Tables.{Store, TxnType, find_user, balance_of}
use ppv_stream_rust.Transaction.{Stmt, Faults, Tx, opened, fetch_or, ignore}
use ppv_stream_rust.Wallet.{Reply, transferred}
use ppv_stream_rust.Wallet.Settle.{settled}
use ppv_stream_rust.Wallet.Settle.Exact.{settle-done}
use ppv_stream_rust.Wallet.Transfer.{transfer_row, transfer_tx}

-- The tables after a transfer of `amount` from `uid` to `recip`.
unfoldable pub after_transfer : String → String → ℤ → Option String → Store → Store
after_transfer uid recip amount memo s =
    let sender_new = sub64 (balance_of s.users uid) amount in
    let recip_new = add64 (balance_of s.users recip) amount in
    settled uid sender_new recip recip_new
      (transfer_row TxnType.transfer_out uid amount sender_new recip memo)
      (transfer_row TxnType.transfer_in recip amount recip_new uid memo) s

module _ (fails : Faults) (uid recip name : String) (amount : ℤ) (memo : Option String)
    (s : Store) where
  abbrev locked : Tx
  locked = ignore fails Stmt.lock_rows (opened s)

  abbrev sender : ℤ × Tx
  sender = fetch_or fails Stmt.select_first (pos 0) (λ t. balance_of t.users uid) locked

  abbrev recipient : ℤ × Tx
  recipient = fetch_or fails Stmt.select_second (pos 0) (λ t. balance_of t.users recip) sender.1

  pub transfer_tx-done :
      {tx : Tx} {r : Reply}
      → transfer_tx fails uid recip name amount memo s ≡ done (tx, r)
      → (tx.aborted ≡ false)
        × (tx.store ≡ after_transfer uid recip amount memo s)
        × (r ≡ transferred (sub64 (balance_of s.users uid) amount) name amount)
        × (amount ≤ℤ balance_of s.users uid)
        × (is_some (find_user uid s.users) ≡ true)
        × (is_some (find_user recip s.users) ≡ true)
  unfolding transfer_tx after_transfer
  transfer_tx-done {tx} {r} h =
      let facts =
        settle-done fails uid (sub64 sender.0 amount) recip (add64 recipient.0 amount)
          (transfer_row TxnType.transfer_out uid amount (sub64 sender.0 amount) recip memo)
          (transfer_row TxnType.transfer_in recip amount (add64 recipient.0 amount) uid memo)
          recipient.1 {tx' = tx} in
      (
        ground (arith, facts),
        ground (arith, facts),
        ground (arith, facts),
        ground (arith, facts),
        ground (arith, facts),
        ground (arith, facts),
      )
