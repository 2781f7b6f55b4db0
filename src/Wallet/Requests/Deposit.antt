-- ===== src/Wallet/Requests/Deposit.antt =====
-- What `wallet_deposit` does to the tables.
use ppv_stream_rust.Prelude.{
  ℕ, String, ◌≡◌, refl, ◌⊎◌, inl, inr, Bool, Option, none, some, arith, if◌then◌else◌, Bool-cases,
  Option-cases,
}
use ppv_stream_rust.Prelude.Int.{ℤ, pos, ◌≤ℤ◌, int_laws, ltb_ℤ}
use ppv_stream_rust.Tables.{Store, Txn, TxnType, Status, find_txn, row_of, insert_txn, balance_of}
use ppv_stream_rust.Tables.Ledger.{effect}
use ppv_stream_rust.Tables.Rows.{insert-IsSound}
use ppv_stream_rust.Tables.Sound.{IsSound}
use ppv_stream_rust.Transaction.{Stmt, Faults}
use ppv_stream_rust.Wallet.{Session, Error, Reply, failed, deposit_submitted}
use ppv_stream_rust.Wallet.Settle.Exact.{insert_txn-some}
use ppv_stream_rust.Wallet.Requests.{request_row, wallet_deposit}

-- A deposit request that was answered with success.
pub record Deposited (session : Session) (amount : ℤ) (s : Store) (r : Reply) (s' : Store)
    : Type 0 where
  pub uid : String
  pub admin : Bool
  pub logged_in : session ≡ some (uid, admin)
  pub minimum : pos 1000 ≤ℤ amount
  pub answer : r ≡ deposit_submitted s.next_txn
  pub row : Txn
  pub listed : find_txn s.next_txn s'.txns ≡ some row
  pub owner : row.user_id ≡ uid
  pub kind : row.txn_type ≡ TxnType.deposit
  pub pending : row.status ≡ Status.pending
  pub asked : row.amount_cents ≡ amount
  pub same_users : s'.users ≡ s.users
  pub sound : IsSound s'

-- A pending deposit has done nothing to a balance yet.
pending_deposit_effect :
    (j uid : String) (i : ℕ) (amount after : ℤ) (memo : Option String)
    → effect j (row_of i (request_row TxnType.deposit uid amount after memo)) ≡ pos 0
unfolding effect
pending_deposit_effect j uid i amount after memo = ground arith

module _ (fails : Faults) (session : Session) (amount : ℤ) (memo : Option String) (s : Store)
    (h : IsSound s) where
  listed-Deposited :
      (uid : String) (admin : Bool) (after : ℤ) (s' : Store)
      → session ≡ some (uid, admin)
      → pos 1000 ≤ℤ amount
      → insert_txn (request_row TxnType.deposit uid amount after memo) s ≡ some s'
      → Deposited session amount s (deposit_submitted s.next_txn) s'
  unfolding find_txn
  listed-Deposited uid admin after s' user least q =
      let row = request_row TxnType.deposit uid amount after memo in
      let (positive, known, left) = insert_txn-some row s q in
      record {
        uid = uid;
        admin = admin;
        logged_in = user;
        minimum = least;
        answer = refl;
        row = row_of s.next_txn row;
        listed = rw left (ground arith);
        owner = refl;
        kind = refl;
        pending = refl;
        asked = refl;
        same_users = rw left refl;
        sound = rw left (
            insert-IsSound row s.users s h h.keyed h.nonneg positive known (λ j. refl)
              (λ j. grind (int_laws, pending_deposit_effect j uid s.next_txn amount after memo)));
      }

  -- Over tables that satisfy the wallet's invariant, whatever statements fail, a deposit request
  -- either answers an error and changes nothing; or it is made by a logged in user, is of at least the
  -- minimum, answers the number of a new pending row with the user and the amount asked for, changes
  -- no balance and keeps the invariant.
  pub wallet_deposit_cases :
      let (r, s') = wallet_deposit fails session amount memo s in
      ((e : Error) × (r ≡ failed e) × (s' ≡ s)) ⊎ Deposited session amount s r s'
  unfolding wallet_deposit
  wallet_deposit_cases = elim (Option-cases session) [
    | inl out ↦
        inl (Error.not_logged_in, rw (out, wallet_deposit) refl, rw (out, wallet_deposit) refl)
    | inr ((uid, admin), user) ↦ elim (Bool-cases (ltb_ℤ amount (pos 1000))) [
      | inl low ↦ inl (
        Error.below_minimum (pos 1000),
        rw (user, wallet_deposit) (rw low refl),
        rw (user, wallet_deposit) (rw low refl),
      )
      | inr enough ↦
          let after = if fails Stmt.select_first then pos 0 else balance_of s.users uid in
          let row = request_row TxnType.deposit uid amount after memo in
          elim (Option-cases (if fails Stmt.insert_first then none else insert_txn row s)) [
            | inl lost ↦ inl (
              Error.db_failed Stmt.insert_first,
              rw (user, wallet_deposit) (rw (enough, lost) refl),
              rw (user, wallet_deposit) (rw (enough, lost) refl),
            )
            | inr (s', q) ↦
                let left : wallet_deposit fails session amount memo s
                    ≡ (deposit_submitted s.next_txn, s') =
                  rw (user, wallet_deposit) (rw (enough, q) refl) in
                inr
                  (rw left (listed-Deposited uid admin after s' user (ground arith) (ground arith)))
          ]
    ]
  ]
