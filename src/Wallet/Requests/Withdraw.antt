-- ===== src/Wallet/Requests/Withdraw.antt =====
-- What `wallet_withdraw` does to the tables.
use ppv_stream_rust.Prelude.{
  ◌+◌, String, ◌≡◌, refl, ◌⊎◌, inl, inr, true, false, Bool, Option, some, ◌∷◌, arith, if◌then◌else◌,
  is_some, ◌==◌, eq_iff, Bool-cases, Option-cases, ◌∙◌, ap,
}
use ppv_stream_rust.Prelude.Int.{ℤ, pos, ◌-ℤ◌, ◌≤ℤ◌, int_laws}
use ppv_stream_rust.Prelude.Word.{sub64, sub64_exact}
use ppv_stream_rust.Prelude.Attempt.{done, Attempt-cases}
use ppv_stream_rust.Tables.{
  Store, TxnType, Status, Txn, row_of, find_user, find_txn, balance_of, set_balance, insert_txn,
}
use ppv_stream_rust.Tables.Users.{balance_of-set_balance, is_some-find_user-set_balance}
use ppv_stream_rust.Tables.Ledger.{effect}
use ppv_stream_rust.Tables.Total.{set_balance-IsKeyed}
use ppv_stream_rust.Tables.Nonneg.{set_balance-IsNonneg, balance-le-total}
use ppv_stream_rust.Tables.Rows.{insert-IsSound}
use ppv_stream_rust.Tables.Sound.{IsSound, HasRoom}
use ppv_stream_rust.Transaction.{Stmt, Faults, Tx}
use ppv_stream_rust.Wallet.{Session, Error, failed, withdrawal_submitted}
use ppv_stream_rust.Wallet.Requests.{request_row, withdraw_body, wallet_withdraw}

-- The tables after a withdrawal of `amount` by `uid`.
unfoldable pub after_withdrawal : String → ℤ → Option String → Store → Store
after_withdrawal uid amount memo s =
    let left = sub64 (balance_of s.users uid) amount in
    record s {
      users = set_balance uid left s.users;
      txns = row_of s.next_txn (request_row TxnType.withdrawal uid amount left memo) ∷ s.txns;
      next_txn = s.next_txn + 1;
    }

module _ (fails : Faults) (uid : String) (amount : ℤ) (memo : Option String) (s : Store) where
  withdraw_body-done :
      {tx : Tx} {new_bal : ℤ}
      → withdraw_body fails uid amount memo s ≡ done (tx, new_bal)
      → (tx.aborted ≡ false)
        × (tx.store ≡ after_withdrawal uid amount memo s)
        × (new_bal ≡ sub64 (balance_of s.users uid) amount)
        × (pos 5000 ≤ℤ amount)
        × (amount ≤ℤ balance_of s.users uid)
        × (is_some (find_user uid s.users) ≡ true)
  unfolding withdraw_body after_withdrawal insert_txn balance_of
  withdraw_body-done h = elim (Option-cases (find_user uid s.users)) [
    | inl unknown ↦ absurd (ground arith)
    | inr (u, known) ↦
        (ground arith, ground arith, ground arith, ground arith, ground arith, ground arith)
  ]

-- A withdrawal request that was answered with success: its row, pending, and the balances.
pub record Withdrawn (uid : String) (amount : ℤ) (s s' : Store) : Type 0 where
  pub row : Txn
  pub listed : find_txn s.next_txn s'.txns ≡ some row
  pub owner : row.user_id ≡ uid
  pub kind : row.txn_type ≡ TxnType.withdrawal
  pub pending : row.status ≡ Status.pending
  pub asked : row.amount_cents ≡ amount
  pub balance :
      (j : String)
      → balance_of s'.users j ≡ balance_of s.users j -ℤ (if uid == j then amount else pos 0)
  pub sound : IsSound s'

module _ (uid : String) (amount : ℤ) (memo : Option String) (s : Store) (h : IsSound s)
    (room : HasRoom s) (least : pos 5000 ≤ℤ amount) (cover : amount ≤ℤ balance_of s.users uid)
    (known : is_some (find_user uid s.users) ≡ true) where
  exact_left : sub64 (balance_of s.users uid) amount ≡ balance_of s.users uid -ℤ amount
  exact_left =
      let le = balance-le-total uid s.users h.nonneg in
      sub64_exact (balance_of s.users uid) amount (grind (int_laws, le, room, least, cover))

  after_withdrawal-Withdrawn : Withdrawn uid amount s (after_withdrawal uid amount memo s)
  unfolding after_withdrawal find_txn effect
  after_withdrawal-Withdrawn =
      let left = sub64 (balance_of s.users uid) amount in
      let agree = λ (j : String). balance_of-set_balance uid j left s.users known in
      let row = request_row TxnType.withdrawal uid amount left memo in
      let shut = exact_left in
      record {
        row = row_of s.next_txn row;
        listed = ground arith;
        owner = refl;
        kind = refl;
        pending = refl;
        asked = refl;
        balance = λ j. grind (int_laws, agree j, shut, eq_iff uid j);
        sound =
            insert-IsSound row (set_balance uid left s.users) s h
              (set_balance-IsKeyed uid left s.users h.keyed)
              (set_balance-IsNonneg uid left s.users (rw shut (omega int_laws)) h.nonneg)
              (omega arith) known (λ j. is_some-find_user-set_balance uid j left s.users)
              (λ j. grind (int_laws, agree j, shut, eq_iff uid j));
      }

module _ (fails : Faults) (session : Session) (amount : ℤ) (memo : Option String) (s : Store)
    (h : IsSound s) (room : HasRoom s) where
  -- Over tables that satisfy the wallet's invariant and hold less than 2 ^ 63 cents in all, whatever
  -- statements fail: a withdrawal request either answers an error and changes nothing; or it is made
  -- by a logged in user, is of at least the minimum and at most the balance, and answers the number of
  -- the new row and the balance less the amount. Then, if the COMMIT succeeded, that row is pending
  -- with the user and the amount asked for, the amount has left the balance, no other balance has
  -- changed and the invariant holds; if the COMMIT failed, the answer is the same and nothing has
  -- changed.
  pub wallet_withdraw_cases :
      let (r, s') = wallet_withdraw fails session amount memo s in
      ((e : Error) × (r ≡ failed e) × (s' ≡ s))
      ⊎ ((uid : String) × (admin : Bool) × (session ≡ some (uid, admin))
          × (pos 5000 ≤ℤ amount)
          × (amount ≤ℤ balance_of s.users uid)
          × (r ≡ withdrawal_submitted s.next_txn (balance_of s.users uid -ℤ amount))
          × (((fails Stmt.commit ≡ false) × Withdrawn uid amount s s')
              ⊎ ((fails Stmt.commit ≡ true) × (s' ≡ s))))
  unfolding wallet_withdraw
  wallet_withdraw_cases = elim (Option-cases session) [
    | inl out ↦
        inl (Error.not_logged_in, rw (out, wallet_withdraw) refl, rw (out, wallet_withdraw) refl)
    | inr ((uid, admin), user) ↦ elim (Attempt-cases (withdraw_body fails uid amount memo s)) [
      | inl (e, q) ↦ inl (e, rw (user, q, wallet_withdraw) refl, rw (user, q, wallet_withdraw) refl)
      | inr ((tx, new_bal), q) ↦
          let (clean, left, answer, least, cover, known) =
            withdraw_body-done fails uid amount memo s q in
          let exact = exact_left uid amount memo s h room least cover known in
          let all = after_withdrawal-Withdrawn uid amount memo s h room least cover known in
          inr (
            uid,
            admin,
            user,
            least,
            cover,
            rw (user, q, wallet_withdraw) (ap (withdrawal_submitted s.next_txn) (answer ∙ exact)),
            elim (Bool-cases (fails Stmt.commit)) [
              | inl lost ↦ inr (lost, rw (user, q, wallet_withdraw) (rw lost refl))
              | inr kept ↦ inl (kept, rw (user, q, wallet_withdraw) (rw (kept, clean, left) all))
            ],
          )
    ]
  ]
