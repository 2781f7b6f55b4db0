-- ===== src/Wallet/Admin/Reject.antt =====
-- `admin_wallet_reject` of a pending withdrawal.
use ppv_stream_rust.Prelude.{
  ℕ, String, ◌≡◌, refl, ◌⊎◌, inl, inr, true, Option, some, arith, if◌then◌else◌, is_some, ◌==◌,
  Bool-cases, List,
}
use ppv_stream_rust.Prelude.Int.{ℤ, pos, ◌+ℤ◌, int_laws}
use ppv_stream_rust.Prelude.Attempt.{done, Attempt-cases}
use ppv_stream_rust.Tables.{
  Store, User, Txn, TxnType, deposit, withdrawal, transfer_in, transfer_out, payment, Status,
  find_txn, update_txn, find_user, balance_of, credit,
}
use ppv_stream_rust.Tables.Ledger.{
  effect, signed_amount, find_txn-update_txn, amount_positive, owner_known,
}
use ppv_stream_rust.Tables.Rows.{update-IsSound, credit-some}
use ppv_stream_rust.Tables.Sound.{IsSound}
use ppv_stream_rust.Transaction.{Faults, Tx}
use ppv_stream_rust.Wallet.{Session, Error, Reply, failed, txn_rejected}
use ppv_stream_rust.Wallet.Finish.{finish_cases}
use ppv_stream_rust.Wallet.Admin.{
  is_withdrawal, mark, ensure_admin_session, reject_body, admin_wallet_reject,
}
use ppv_stream_rust.Wallet.Admin.Outcome.{credited, Rejected, reject_body-done}
use ppv_stream_rust.Wallet.Admin.Credit.{
  balance_of-credited, credited-IsKeyed, credited-IsNonneg, is_some-find_user-credited,
}
use ppv_stream_rust.Wallet.Admin.Approve.{ensure_admin_session-done}

-- What a rejection of row `t` gives back.
abbrev pub refund : Txn → ℤ
refund t = if is_withdrawal t.txn_type then t.amount_cents else pos 0

-- A rejection of row `txn_id` by an administrator, that left `s'`.
pub record Refunded (session : Session) (txn_id : ℕ) (s : Store) (r : Reply) (s' : Store)
    : Type 0 where
  pub admin : String
  pub by_admin : session ≡ some (admin, true)
  pub row : Txn
  pub found : find_txn txn_id s.txns ≡ some row
  pub was_pending : row.status ≡ Status.pending
  pub answer : r ≡ txn_rejected (is_withdrawal row.txn_type)
  pub balance :
      (j : String)
      → balance_of s'.users j
        ≡ balance_of s.users j +ℤ (if row.user_id == j then refund row else pos 0)
  pub marked : Txn
  pub found_marked : find_txn txn_id s'.txns ≡ some marked
  pub now_rejected : marked.status ≡ Status.rejected
  pub sound : IsSound s'

-- For each type of row, a rejection undoes what the pending row had done.
rejected_sign :
    (k : TxnType) (a : ℤ)
    → signed_amount k Status.rejected a
      ≡ signed_amount k Status.pending a +ℤ (if is_withdrawal k then a else pos 0)
rejected_sign deposit a = omega int_laws
rejected_sign withdrawal a = omega int_laws
rejected_sign transfer_in a = omega int_laws
rejected_sign transfer_out a = omega int_laws
rejected_sign payment a = omega int_laws

rejected_effect :
    (j : String) (memo : Option String) (t : Txn)
    → t.status ≡ Status.pending
    → effect j (mark Status.rejected memo t)
      ≡ effect j t +ℤ (if t.user_id == j then refund t else pos 0)
unfolding effect
rejected_effect j memo t p = elim (Bool-cases (t.user_id == j)) [
  | inl same ↦ rw (same, p) (rejected_sign t.txn_type t.amount_cents)
  | inr other ↦ rw other (omega int_laws)
]

-- The tables of users that a rejection leaves, in both cases.
refunded_users :
    (t : Txn) (us vs : List User)
    → is_some (find_user t.user_id us) ≡ true
    → (if is_withdrawal t.txn_type
        then (credit t.user_id t.amount_cents us ≡ some vs)
        else (vs ≡ us))
    → (vs ≡ us) × (refund t ≡ pos 0)
      ⊎ (vs ≡ credited t.user_id t.amount_cents us) × (refund t ≡ t.amount_cents)
unfolding credited
refunded_users t us vs known c = elim (Bool-cases (is_withdrawal t.txn_type)) [
  | inl yes' ↦ inr (credit-some t.user_id t.amount_cents us (rw yes' at c) known, rw yes')
  | inr no' ↦ inl ((rw no' at c), rw no')
]

module _ (fails : Faults) (session : Session) (txn_id : ℕ) (memo : Option String) (s : Store)
    (h : IsSound s) where
  -- The invariant, for any table of users that pays back what the rejection gives back.
  rejected-IsSound :
      (row : Txn) (us : List User)
      → find_txn txn_id s.txns ≡ some row
      → row.status ≡ Status.pending
      → (us ≡ s.users) × (refund row ≡ pos 0)
        ⊎ (us ≡ credited row.user_id row.amount_cents s.users) × (refund row ≡ row.amount_cents)
      → ((j : String)
          → balance_of us j
            ≡ balance_of s.users j +ℤ (if row.user_id == j then refund row else pos 0))
        × IsSound
            (record s { users = us; txns = update_txn (mark Status.rejected memo) txn_id s.txns })
  rejected-IsSound row us found p (inl (same, nothing)) =
      let agree : (j : String)
          → balance_of us j
            ≡ balance_of s.users j +ℤ (if row.user_id == j then refund row else pos 0) =
        λ j. elim (Bool-cases (row.user_id == j)) [
          | inl b ↦ rw (b, nothing, same) (omega int_laws)
          | inr b ↦ rw (b, same) (omega int_laws)
        ] in
      (
        agree,
        update-IsSound (mark Status.rejected memo) txn_id us s h found (λ t. refl) (λ t. refl)
            (λ t. refl) (λ j. rw same) (rw same h.keyed) (rw same h.nonneg)
            (λ j. grind (int_laws, agree j, rejected_effect j memo row p)),
      )
  rejected-IsSound row us found p (inr (paid, all)) =
      let known = owner_known txn_id s.users s.txns found h.owned in
      let agree : (j : String)
          → balance_of us j
            ≡ balance_of s.users j +ℤ (if row.user_id == j then refund row else pos 0) =
        λ j. rw (paid, all) (balance_of-credited row.user_id row.amount_cents s.users j known) in
      (
        agree,
        update-IsSound (mark Status.rejected memo) txn_id us s h found (λ t. refl) (λ t. refl)
            (λ t. refl)
            (λ j. rw paid (is_some-find_user-credited row.user_id row.amount_cents s.users j))
            (rw paid (credited-IsKeyed row.user_id row.amount_cents s.users h.keyed))
            (rw paid (
              credited-IsNonneg row.user_id row.amount_cents s.users
                (omega (arith, amount_positive txn_id s.txns found h.positive)) h.nonneg))
            (λ j. grind (int_laws, agree j, rejected_effect j memo row p)),
      )

  Rejected-Refunded :
      {admin : String} {tx : Tx} {r : Reply}
      → ensure_admin_session session ≡ done admin
      → Rejected fails txn_id memo s tx r
      → Refunded session txn_id s r tx.store
  Rejected-Refunded {admin} {tx} {r} by a =
      let known = owner_known txn_id s.users s.txns a.found h.owned in
      let (agree, sound) =
        rejected-IsSound a.row a.users a.found a.was_pending
          (refunded_users a.row s.users a.users known a.credited_if) in
      record {
        admin = admin;
        by_admin = ensure_admin_session-done session by;
        row = a.row;
        found = a.found;
        was_pending = a.was_pending;
        answer = a.answer;
        balance = λ j. rw (a.store) (agree j);
        marked = mark Status.rejected memo a.row;
        found_marked =
            rw (a.store)
              (find_txn-update_txn (mark Status.rejected memo) txn_id s.txns (λ t. refl) a.found);
        now_rejected = refl;
        sound = rw (a.store) sound;
      }

  -- Over tables that satisfy the wallet's invariant, whatever statements fail, a rejection either
  -- answers an error and changes nothing; or it comes from an administrator, its row was pending and
  -- is now rejected, the row's user has got back the amount of a withdrawal and nothing for another
  -- row, every other balance is as it was and the invariant holds.
  pub admin_wallet_reject_refunds :
      let (r, s') = admin_wallet_reject fails session txn_id memo s in
      ((e : Error) × (r ≡ failed e) × (s' ≡ s)) ⊎ Refunded session txn_id s r s'
  unfolding admin_wallet_reject
  admin_wallet_reject_refunds = elim (Attempt-cases (ensure_admin_session session)) [
    | inl (e, q) ↦ inl (e, ground arith, ground arith)
    | inr (admin, q) ↦
        rw (q, admin_wallet_reject)
          (elim (finish_cases fails s (reject_body fails txn_id memo s)) [
            | inl (e, p) ↦ inl (e, rw p, rw p)
            | inr (tx, r, ran, p) ↦
                let a = reject_body-done fails txn_id memo s ran in
                inr (rw (p, a.clean) (Rejected-Refunded q a))
          ])
  ]
