-- ===== src/Wallet/Admin/Complete.antt =====
-- `admin_wallet_complete`, where nothing happens between its two statements.
use ppv_stream_rust.Prelude.{
  ℕ, String, ◌≡◌, refl, ◌⊎◌, inl, inr, true, Option, some, arith, Option-cases, Bool-cases, ◌==◌,
}
use ppv_stream_rust.Prelude.Int.{int_laws}
use ppv_stream_rust.Prelude.Attempt.{done, Attempt-cases}
use ppv_stream_rust.Tables.{Store, Txn, TxnType, Status, find_txn, update_txn}
use ppv_stream_rust.Tables.Ledger.{effect, find_txn-update_txn}
use ppv_stream_rust.Tables.Rows.{update-IsSound}
use ppv_stream_rust.Tables.Sound.{IsSound}
use ppv_stream_rust.Transaction.{Stmt, Faults}
use ppv_stream_rust.Wallet.{Session, Error, Reply, failed, withdrawal_completed}
use ppv_stream_rust.Wallet.Admin.{
  is_pending, is_withdrawal, mark, ensure_admin_session, complete_check, complete_update,
  admin_wallet_complete,
}
use ppv_stream_rust.Wallet.Admin.Approve.{ensure_admin_session-done}

-- A completion of row `txn_id` by an administrator, that left `s'`.
pub record Completed (session : Session) (txn_id : ℕ) (s : Store) (r : Reply) (s' : Store)
    : Type 0 where
  pub admin : String
  pub by_admin : session ≡ some (admin, true)
  pub row : Txn
  pub found : find_txn txn_id s.txns ≡ some row
  pub was_pending : row.status ≡ Status.pending
  pub was_withdrawal : row.txn_type ≡ TxnType.withdrawal
  pub answer : r ≡ withdrawal_completed
  pub same_users : s'.users ≡ s.users
  pub marked : Txn
  pub found_marked : find_txn txn_id s'.txns ≡ some marked
  pub now_completed : marked.status ≡ Status.completed
  pub sound : IsSound s'

completed_effect :
    (j : String) (memo : Option String) (t : Txn)
    → t.status ≡ Status.pending
    → t.txn_type ≡ TxnType.withdrawal
    → effect j (mark Status.completed memo t) ≡ effect j t
unfolding effect
completed_effect j memo t p d = elim (Bool-cases (t.user_id == j)) [
  | inl same ↦ rw (same, p, d) refl
  | inr other ↦ rw other refl
]

is_pending-true : (st : Status) → is_pending st ≡ true → st ≡ Status.pending
is_pending-true Status.pending h = refl
is_pending-true Status.approved h = absurd (ground arith)
is_pending-true Status.completed h = absurd (ground arith)
is_pending-true Status.rejected h = absurd (ground arith)

is_withdrawal-true : (k : TxnType) → is_withdrawal k ≡ true → k ≡ TxnType.withdrawal
is_withdrawal-true TxnType.withdrawal h = refl
is_withdrawal-true TxnType.deposit h = absurd (ground arith)
is_withdrawal-true TxnType.transfer_in h = absurd (ground arith)
is_withdrawal-true TxnType.transfer_out h = absurd (ground arith)
is_withdrawal-true TxnType.payment h = absurd (ground arith)

complete_check-done :
    (fails : Faults) (txn_id : ℕ) (s : Store)
    → complete_check fails txn_id s ≡ done tt
    → (row : Txn) × (find_txn txn_id s.txns ≡ some row)
      × (row.status ≡ Status.pending)
      × (row.txn_type ≡ TxnType.withdrawal)
unfolding complete_check
complete_check-done fails txn_id s h = elim (Option-cases (find_txn txn_id s.txns)) [
  | inl missing ↦ absurd (ground arith)
  | inr (row, e) ↦ (
    row,
    e,
    is_pending-true row.status (ground arith),
    is_withdrawal-true row.txn_type (ground arith),
  )
]

module _ (fails : Faults) (session : Session) (txn_id : ℕ) (memo : Option String) (s : Store)
    (h : IsSound s) where
  done-Completed :
      {admin : String}
      → ensure_admin_session session ≡ done admin
      → complete_check fails txn_id s ≡ done tt
      → Completed session txn_id s withdrawal_completed
          (record s { txns = update_txn (mark Status.completed memo) txn_id s.txns })
  done-Completed {admin} by q =
      let (row, found, p, d) = complete_check-done fails txn_id s q in
      record {
        admin = admin;
        by_admin = ensure_admin_session-done session by;
        row = row;
        found = found;
        was_pending = p;
        was_withdrawal = d;
        answer = refl;
        same_users = refl;
        marked = mark Status.completed memo row;
        found_marked =
            find_txn-update_txn (mark Status.completed memo) txn_id s.txns (λ t. refl) found;
        now_completed = refl;
        sound =
            update-IsSound (mark Status.completed memo) txn_id s.users s h found (λ t. refl)
              (λ t. refl) (λ t. refl) (λ j. refl) h.keyed h.nonneg
              (λ j. grind (int_laws, completed_effect j memo row p d));
      }

  -- Over tables that satisfy the wallet's invariant, whatever statements fail and with nothing between
  -- its two statements, a completion either answers an error and changes nothing; or it comes from an
  -- administrator, its row was a pending withdrawal and is now completed, no balance has changed and
  -- the invariant holds.
  pub admin_wallet_complete_marks :
      let (r, s') = admin_wallet_complete fails session txn_id memo s in
      ((e : Error) × (r ≡ failed e) × (s' ≡ s)) ⊎ Completed session txn_id s r s'
  unfolding admin_wallet_complete complete_update
  admin_wallet_complete_marks = elim (Attempt-cases (ensure_admin_session session)) [
    | inl (e, q) ↦ inl (e, rw (q, admin_wallet_complete) refl, rw (q, admin_wallet_complete) refl)
    | inr (admin, q) ↦ elim (Attempt-cases (complete_check fails txn_id s)) [
      | inl (e, p) ↦
          inl (e, rw (q, p, admin_wallet_complete) refl, rw (q, p, admin_wallet_complete) refl)
      | inr (u, p) ↦ elim (Bool-cases (fails Stmt.update_first)) [
        | inl lost ↦ inl (
          Error.db_failed Stmt.update_first,
          rw (q, p, admin_wallet_complete) (rw lost refl),
          rw (q, p, admin_wallet_complete) (rw lost refl),
        )
        | inr kept ↦ inr (rw (q, p, admin_wallet_complete) (rw kept (done-Completed q p)))
      ]
    ]
  ]
