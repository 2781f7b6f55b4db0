-- ===== src/Wallet/Admin/Twice.antt =====
-- A second decision on a row that was decided.
use ppv_stream_rust.Prelude.{
  ℕ, String, ◌≡◌, refl, ◌≢◌, inl, inr, false, Option, some, arith, Bool-cases,
}
use ppv_stream_rust.Prelude.Attempt.{stopped, Attempt-cases}
use ppv_stream_rust.Tables.{Store, Txn, Status, find_txn}
use ppv_stream_rust.Transaction.{Stmt, Faults}
use ppv_stream_rust.Wallet.{Session, Error, Reply, failed, finish}
use ppv_stream_rust.Wallet.Admin.{
  is_pending, ensure_admin_session, approve_body, reject_body, complete_check, complete_update,
  admin_wallet_approve, admin_wallet_complete, admin_wallet_reject,
}

-- An answer that is an error, with nothing changed.
abbrev pub IsRefused : Store → Reply × Store → Type 0
IsRefused s (r, s') = (e : Error) × (r ≡ failed e) × (s' ≡ s)

not_pending : (st : Status) → st ≢ Status.pending → is_pending st ≡ false
not_pending Status.pending h = absurd (h refl)
not_pending Status.approved h = refl
not_pending Status.completed h = refl
not_pending Status.rejected h = refl

module _ (fails : Faults) (txn_id : ℕ) (memo : Option String) (s : Store) (row : Txn)
    (found : find_txn txn_id s.txns ≡ some row) (decided : row.status ≢ Status.pending) where
  approve_body_stops : (e : Error) × (approve_body fails txn_id memo s ≡ stopped e)
  unfolding approve_body
  approve_body_stops = elim (Bool-cases (fails Stmt.begin)) [
    | inl lost ↦ (Error.db_failed Stmt.begin, ground arith)
    | inr begun ↦ elim (Bool-cases (fails Stmt.select_row)) [
      | inl lost ↦ (Error.db_failed Stmt.select_row, ground arith)
      | inr seen ↦ (Error.wrong_status row.status, ground (arith, not_pending row.status decided))
    ]
  ]

  reject_body_stops : (e : Error) × (reject_body fails txn_id memo s ≡ stopped e)
  unfolding reject_body
  reject_body_stops = elim (Bool-cases (fails Stmt.begin)) [
    | inl lost ↦ (Error.db_failed Stmt.begin, ground arith)
    | inr begun ↦ elim (Bool-cases (fails Stmt.select_row)) [
      | inl lost ↦ (Error.db_failed Stmt.select_row, ground arith)
      | inr seen ↦ (Error.wrong_status row.status, ground (arith, not_pending row.status decided))
    ]
  ]

  complete_check_stops : (e : Error) × (complete_check fails txn_id s ≡ stopped e)
  unfolding complete_check
  complete_check_stops = elim (Bool-cases (fails Stmt.select_row)) [
    | inl lost ↦ (Error.db_failed Stmt.select_row, ground arith)
    | inr seen ↦ (Error.wrong_status row.status, ground (arith, not_pending row.status decided))
  ]

  -- On a row that is there and no longer pending, an approval, a rejection and a completion by anyone
  -- each answer an error and change nothing, whatever statements fail.
  pub decided_row_is_final :
      (session : Session)
      → IsRefused s (admin_wallet_approve fails session txn_id memo s)
        × IsRefused s (admin_wallet_reject fails session txn_id memo s)
        × IsRefused s (admin_wallet_complete fails session txn_id memo s)
  unfolding admin_wallet_approve admin_wallet_reject admin_wallet_complete complete_update finish
  decided_row_is_final session = elim (Attempt-cases (ensure_admin_session session)) [
    | inl (e, q) ↦ (
      (e, rw (q, admin_wallet_approve) refl, rw (q, admin_wallet_approve) refl),
      (e, rw (q, admin_wallet_reject) refl, rw (q, admin_wallet_reject) refl),
      (e, rw (q, admin_wallet_complete) refl, rw (q, admin_wallet_complete) refl),
    )
    | inr (admin, q) ↦
        let (a, p) = approve_body_stops in
        let (b, p') = reject_body_stops in
        let (c, p'') = complete_check_stops in
        (
          (a, rw (q, p, admin_wallet_approve) refl, rw (q, p, admin_wallet_approve) refl),
          (b, rw (q, p', admin_wallet_reject) refl, rw (q, p', admin_wallet_reject) refl),
          (c, rw (q, p'', admin_wallet_complete) refl, rw (q, p'', admin_wallet_complete) refl),
        )
  ]
