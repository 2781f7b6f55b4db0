-- ===== src/Wallet/Settle/Exact.antt =====
-- The four statements that move money, and the tables `settled` they leave.
use ppv_stream_rust.Prelude.{String, ◌≡◌, true, false, some, arith, is_some, List, ◌∙◌, ◌∷◌, ◌+◌}
use ppv_stream_rust.Prelude.Int.{ℤ, pos, ◌<ℤ◌}
use ppv_stream_rust.Prelude.Attempt.{done}
use ppv_stream_rust.Tables.{Store, User, NewTxn, find_user, insert_txn, set_balance, row_of}
use ppv_stream_rust.Tables.Users.{is_some-find_user-set_balance}
use ppv_stream_rust.Transaction.{Faults, Tx}
use ppv_stream_rust.Wallet.Settle.{settle, settled}

pub insert_txn-some :
    (n : NewTxn) (s : Store) {t : Store}
    → insert_txn n s ≡ some t
    → (pos 0 <ℤ n.amount_cents)
      × (is_some (find_user n.user_id s.users) ≡ true)
      × (t ≡ record s { txns = row_of s.next_txn n ∷ s.txns; next_txn = s.next_txn + 1 })
unfolding insert_txn
insert_txn-some n s h = (ground arith, ground arith, ground arith)

-- Both writes of a balance leave it known who is a user.
pub still_user :
    (payer : String) (payer_new : ℤ) (payee : String) (payee_new : ℤ) (j : String) (us : List User)
    → is_some (find_user j (set_balance payee payee_new (set_balance payer payer_new us)))
      ≡ is_some (find_user j us)
still_user payer payer_new payee payee_new j us =
    is_some-find_user-set_balance payee j payee_new (set_balance payer payer_new us)
    ∙ is_some-find_user-set_balance payer j payer_new us

module _ (fails : Faults) (payer : String) (payer_new : ℤ) (payee : String) (payee_new : ℤ)
    (out in' : NewTxn) (tx : Tx) where
  -- If the four statements succeed, then the transaction was sound before and is after, both rows
  -- carry a positive amount for a known user, and the tables are the ones of `settled`.
  pub settle-done :
      {tx' : Tx}
      → settle fails payer payer_new payee payee_new out in' tx ≡ done tx'
      → (tx.aborted ≡ false)
        × (tx'.aborted ≡ false)
        × (tx'.store ≡ settled payer payer_new payee payee_new out in' tx.store)
        × (pos 0 <ℤ out.amount_cents)
        × (pos 0 <ℤ in'.amount_cents)
        × (is_some (find_user out.user_id tx.store.users) ≡ true)
        × (is_some (find_user in'.user_id tx.store.users) ≡ true)
  unfolding settle settled insert_txn
  settle-done h = (
    ground arith,
    ground arith,
    ground arith,
    ground arith,
    ground arith,
    ground (arith, still_user payer payer_new payee payee_new out.user_id tx.store.users),
    ground (arith, still_user payer payer_new payee payee_new in'.user_id tx.store.users),
  )
