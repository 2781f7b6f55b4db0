-- ===== src/Wallet/Admin/Approve.antt =====
-- `admin_wallet_approve` of a pending deposit.
use ppv_stream_rust.Prelude.{
  ℕ, String, ◌≡◌, refl, ◌⊎◌, inl, inr, true, false, Option, none, some, arith, if◌then◌else◌, ◌∙◌,
  ap, ◌==◌, Bool-cases,
}
use ppv_stream_rust.Prelude.Int.{ℤ, pos, ◌+ℤ◌, int_laws}
use ppv_stream_rust.Prelude.Attempt.{done, Attempt-cases}
use ppv_stream_rust.Tables.{Store, Txn, TxnType, Status, find_txn, balance_of}
use ppv_stream_rust.Tables.Ledger.{effect, find_txn-update_txn, amount_positive}
use ppv_stream_rust.Tables.Rows.{update-IsSound}
use ppv_stream_rust.Tables.Sound.{IsSound}
use ppv_stream_rust.Transaction.{Faults, Tx}
use ppv_stream_rust.Wallet.{Session, Error, Reply, failed, deposit_approved}
use ppv_stream_rust.Wallet.Finish.{finish_cases}
use ppv_stream_rust.Wallet.Admin.{
  mark_approved, ensure_admin_session, approve_body, admin_wallet_approve,
}
use ppv_stream_rust.Wallet.Admin.Outcome.{credited, Approved, approve_body-done}
use ppv_stream_rust.Wallet.Admin.Credit.{
  balance_of-credited, credited-IsKeyed, credited-IsNonneg, is_some-find_user-credited,
}

pub ensure_admin_session-done :
    (session : Session) {uid : String}
    → ensure_admin_session session ≡ done uid
    → session ≡ some (uid, true)
unfolding ensure_admin_session
ensure_admin_session-done none h = absurd (ground arith)
ensure_admin_session-done (some (uid, true)) h = ground arith
ensure_admin_session-done (some (uid, false)) h = absurd (ground arith)

-- An approval of row `txn_id` by an administrator, that left `s'`.
pub record Credited (session : Session) (txn_id : ℕ) (s : Store) (r : Reply) (s' : Store)
    : Type 0 where
  pub admin : String
  pub by_admin : session ≡ some (admin, true)
  pub row : Txn
  pub found : find_txn txn_id s.txns ≡ some row
  pub was_pending : row.status ≡ Status.pending
  pub was_deposit : row.txn_type ≡ TxnType.deposit
  pub answer : r ≡ deposit_approved (balance_of s'.users row.user_id)
  pub balance :
      (j : String)
      → balance_of s'.users j
        ≡ balance_of s.users j +ℤ (if row.user_id == j then row.amount_cents else pos 0)
  pub marked : Txn
  pub found_marked : find_txn txn_id s'.txns ≡ some marked
  pub now_approved : marked.status ≡ Status.approved
  pub sound : IsSound s'

approved_effect :
    (j : String) (bal : ℤ) (memo : Option String) (t : Txn)
    → t.status ≡ Status.pending
    → t.txn_type ≡ TxnType.deposit
    → effect j (mark_approved bal memo t)
      ≡ effect j t +ℤ (if t.user_id == j then t.amount_cents else pos 0)
unfolding effect
approved_effect j bal memo t p d = elim (Bool-cases (t.user_id == j)) [
  | inl same ↦ rw (same, p, d) (omega int_laws)
  | inr other ↦ rw (other) (omega int_laws)
]

module _ (fails : Faults) (session : Session) (txn_id : ℕ) (memo : Option String) (s : Store)
    (h : IsSound s) where
  Approved-Credited :
      {admin : String} {tx : Tx} {r : Reply}
      → ensure_admin_session session ≡ done admin
      → Approved fails txn_id memo s tx r
      → Credited session txn_id s r tx.store
  Approved-Credited {admin} {tx} {r} by a =
      let row = a.row in
      let us = credited row.user_id row.amount_cents s.users in
      let moves =
        λ (j : String). balance_of-credited row.user_id row.amount_cents s.users j a.known in
      record {
        admin = admin;
        by_admin = ensure_admin_session-done session by;
        row = row;
        found = a.found;
        was_pending = a.was_pending;
        was_deposit = a.was_deposit;
        answer = rw (a.store) (a.answer ∙ ap deposit_approved a.balance);
        balance = λ j. rw (a.store) (moves j);
        marked = mark_approved a.new_bal memo row;
        found_marked =
            rw (a.store) (
              find_txn-update_txn (mark_approved a.new_bal memo) txn_id s.txns (λ t. refl) a.found);
        now_approved = refl;
        sound = rw (a.store) (
            update-IsSound (mark_approved a.new_bal memo) txn_id us s h a.found (λ t. refl)
              (λ t. refl) (λ t. refl)
              (is_some-find_user-credited row.user_id row.amount_cents s.users)
              (credited-IsKeyed row.user_id row.amount_cents s.users h.keyed)
              (credited-IsNonneg row.user_id row.amount_cents s.users
                (omega (arith, amount_positive txn_id s.txns a.found h.positive)) h.nonneg)
              (λ j. grind (
                int_laws,
                moves j,
                approved_effect j a.new_bal memo row a.was_pending a.was_deposit,
              )));
      }

  -- Over tables that satisfy the wallet's invariant, whatever statements fail, an approval either
  -- answers an error and changes nothing; or it comes from an administrator, its row was a pending
  -- deposit and is now approved, the row's user has gained the row's amount, every other balance is as
  -- it was, the answer is the new balance and the invariant holds.
  pub admin_wallet_approve_credits :
      let (r, s') = admin_wallet_approve fails session txn_id memo s in
      ((e : Error) × (r ≡ failed e) × (s' ≡ s)) ⊎ Credited session txn_id s r s'
  unfolding admin_wallet_approve
  admin_wallet_approve_credits = elim (Attempt-cases (ensure_admin_session session)) [
    | inl (e, q) ↦ inl (e, ground arith, ground arith)
    | inr (admin, q) ↦
        rw (q, admin_wallet_approve)
          (elim (finish_cases fails s (approve_body fails txn_id memo s)) [
            | inl (e, p) ↦ inl (e, rw p, rw p)
            | inr (tx, r, ran, p) ↦
                let a = approve_body-done fails txn_id memo s ran in
                inr (rw (p, a.clean) (Approved-Credited q a))
          ])
  ]
