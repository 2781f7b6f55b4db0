-- ===== src/Wallet/Admin/Outcome.antt =====
-- What an approval or a rejection has done when its transaction ends.
use ppv_stream_rust.Prelude.{
  ℕ, String, ◌≡◌, inl, inr, true, false, Option, some, List, arith, if◌then◌else◌, is_some,
  Option-cases, Bool-cases,
}
use ppv_stream_rust.Prelude.Int.{ℤ, ◌+ℤ◌}
use ppv_stream_rust.Prelude.Attempt.{done}
use ppv_stream_rust.Tables.{
  Store, User, Txn, TxnType, Status, find_user, find_txn, update_txn, balance_of, set_balance,
  credit,
}
use ppv_stream_rust.Tables.Rows.{credit-some}
use ppv_stream_rust.Transaction.{Faults, Tx}
use ppv_stream_rust.Wallet.{Reply, deposit_approved, txn_rejected}
use ppv_stream_rust.Wallet.Admin.{is_withdrawal, mark, mark_approved, approve_body, reject_body}

-- A credit of `amount` to user `id`.
unfoldable pub credited : String → ℤ → List User → List User
credited id amount us = set_balance id (balance_of us id +ℤ amount) us

module _ (fails : Faults) (txn_id : ℕ) (memo : Option String) (s : Store) where
  pub record Approved (tx : Tx) (r : Reply) : Type 0 where
    pub row : Txn
    pub found : find_txn txn_id s.txns ≡ some row
    pub was_pending : row.status ≡ Status.pending
    pub was_deposit : row.txn_type ≡ TxnType.deposit
    pub known : is_some (find_user row.user_id s.users) ≡ true
    pub clean : tx.aborted ≡ false
    pub new_bal : ℤ
    pub answer : r ≡ deposit_approved new_bal
    pub balance : new_bal ≡ balance_of (credited row.user_id row.amount_cents s.users) row.user_id
    pub store : tx.store ≡ record s {
      users = credited row.user_id row.amount_cents s.users;
      txns = update_txn (mark_approved new_bal memo) txn_id s.txns;
    }

  pub approve_body-done :
      {tx : Tx} {r : Reply} → approve_body fails txn_id memo s ≡ done (tx, r) → Approved tx r
  unfolding approve_body credited
  approve_body-done {tx} {r} h = elim (Option-cases (find_txn txn_id s.txns)) [
    | inl missing ↦ absurd (ground arith)
    | inr (row, e) ↦ elim (Option-cases (credit row.user_id row.amount_cents s.users)) [
      | inl over ↦ absurd (ground arith)
      | inr (us, c) ↦
          let known : is_some (find_user row.user_id s.users) ≡ true = ground arith in
          let paid = credit-some row.user_id row.amount_cents s.users c known in
          record {
            row = row;
            found = e;
            was_pending = ground arith;
            was_deposit = ground arith;
            known = known;
            clean = ground arith;
            new_bal = balance_of us row.user_id;
            answer = ground arith;
            balance = rw paid;
            store = ground (arith, paid);
          }
    ]
  ]

  pub record Rejected (tx : Tx) (r : Reply) : Type 0 where
    pub row : Txn
    pub found : find_txn txn_id s.txns ≡ some row
    pub was_pending : row.status ≡ Status.pending
    pub clean : tx.aborted ≡ false
    pub answer : r ≡ txn_rejected (is_withdrawal row.txn_type)
    pub users : List User
    pub credited_if :
        if is_withdrawal row.txn_type
        then (credit row.user_id row.amount_cents s.users ≡ some users)
        else (users ≡ s.users)
    pub store :
        tx.store
        ≡ record s { users = users; txns = update_txn (mark Status.rejected memo) txn_id s.txns }

  pub reject_body-done :
      {tx : Tx} {r : Reply} → reject_body fails txn_id memo s ≡ done (tx, r) → Rejected tx r
  unfolding reject_body
  reject_body-done {tx} {r} h = elim (Option-cases (find_txn txn_id s.txns)) [
    | inl missing ↦ absurd (ground arith)
    | inr (row, e) ↦ record {
      row = row;
      found = e;
      was_pending = ground arith;
      clean = ground arith;
      answer = ground arith;
      users = tx.store.users;
      credited_if = elim (Bool-cases (is_withdrawal row.txn_type)) [
        | inl yes' ↦ rw yes' (ground arith)
        | inr no' ↦ rw no' (ground arith)
      ];
      store = ground arith;
    }
  ]
