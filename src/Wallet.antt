-- ===== src/Wallet.antt =====
-- src/handlers/wallet.rs and the wallet handlers of src/handlers/admin.rs: what a request is
-- answered, and the parts that several handlers share.
pub mod Settle
pub mod Finish
pub mod Requests
pub mod Transfer
pub mod Payment
pub mod Admin
pub mod Rounds
pub mod Runs
use ppv_stream_rust.Prelude.{ℕ, ◌+◌, String, Bool, Option, none, some, if◌then◌else◌, List, [], ◌∷◌}
use ppv_stream_rust.Prelude.Int.{ℤ, pos}
use ppv_stream_rust.Prelude.Attempt.{Attempt, done, stopped, ◌>>=◌, or_stop}
use ppv_stream_rust.Tables.{Store, Status, NewTxn, set_balance, insert_txn, row_of}
use ppv_stream_rust.Transaction.{
  Stmt, update_first, update_second, insert_first, insert_second, Faults, Tx, execute, commit_tx,
}

-- `sessions::current_user_id`: the user of the request and whether it is an administrator.
abbrev pub Session : Type 0
Session = Option (String × Bool)

pub data Error : Type 0 where
  not_logged_in admin_only disabled user_not_found recipient_not_found self_transfer : Error
  video_id_required video_not_found own_video no_price already_purchased : Error
  txn_not_found wrong_type : Error
  wrong_status : Status → Error
  below_minimum insufficient_balance : ℤ → Error
  db_failed : Stmt → Error

pub data Reply : Type 0 where
  failed : Error → Reply
  deposit_submitted : ℕ → Reply
  withdrawal_submitted : ℕ → ℤ → Reply
  transferred : ℤ → String → ℤ → Reply
  access_granted : ℤ → ℤ → ℤ → Reply
  deposit_approved : ℤ → Reply
  withdrawal_completed : Reply
  txn_rejected : Bool → Reply

abbrev pub min_deposit_cents : ℤ
min_deposit_cents = pos 1000

abbrev pub min_withdrawal_cents : ℤ
min_withdrawal_cents = pos 5000

abbrev pub min_transfer_cents : ℤ
min_transfer_cents = pos 100

-- The end of a handler: an early return rolls the transaction back; else it is committed.
unfoldable pub finish : Faults → Store → Attempt Error (Tx × Reply) → Reply × Store
finish fails s (stopped e) = (failed e, s)
finish fails s (done (tx, r)) = elim (commit_tx fails tx s) [
  | none ↦ (failed (db_failed Stmt.commit), s)
  | some s' ↦ (r, s')
]
