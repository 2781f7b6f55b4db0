-- ===== src/Tables/Rows.antt =====
-- One row written: the invariant holds if the balances move by what the row says.
use ppv_stream_rust.Prelude.{ℕ, ◌+◌, String, ◌≡◌, true, some, List, ◌∷◌, arith, is_some, ◌∙◌}
use ppv_stream_rust.Prelude.Int.{ℤ, pos, ◌+ℤ◌, ◌<ℤ◌, int_laws}
use ppv_stream_rust.Tables.{
  Store, User, Txn, NewTxn, row_of, find_user, find_txn, update_txn, balance_of, set_balance,
  credit,
}
use ppv_stream_rust.Tables.Ledger.{
  effect, ledger, update_txn-IsNumbered, update_txn-ArePositive, update_txn-AreOwned, AreOwned-kept,
  ledger-update_txn,
}
use ppv_stream_rust.Tables.Total.{IsKeyed}
use ppv_stream_rust.Tables.Nonneg.{IsNonneg}
use ppv_stream_rust.Tables.Sound.{IsSound}

pub insert-IsSound :
    (n : NewTxn) (us : List User) (s : Store)
    → IsSound s
    → IsKeyed us
    → IsNonneg us
    → pos 0 <ℤ n.amount_cents
    → is_some (find_user n.user_id s.users) ≡ true
    → ((j : String) → is_some (find_user j us) ≡ is_some (find_user j s.users))
    → ((j : String) → balance_of us j ≡ balance_of s.users j +ℤ effect j (row_of s.next_txn n))
    → IsSound
        (record s { users = us; txns = row_of s.next_txn n ∷ s.txns; next_txn = s.next_txn + 1 })
unfolding ledger
insert-IsSound n us s h keyed nonneg least known same_users agree = record {
  keyed = keyed;
  numbered = (omega arith, h.numbered);
  nonneg = nonneg;
  positive = (least, h.positive);
  owned = (same_users n.user_id ∙ known, AreOwned-kept s.users us s.txns same_users h.owned);
  reconciled = λ j. grind (int_laws, agree j, h.reconciled j);
}

pub update-IsSound :
    (f : Txn → Txn) (i : ℕ) (us : List User) (s : Store) {t : Txn}
    → IsSound s
    → find_txn i s.txns ≡ some t
    → ((x : Txn) → (f x).id ≡ x.id)
    → ((x : Txn) → (f x).amount_cents ≡ x.amount_cents)
    → ((x : Txn) → (f x).user_id ≡ x.user_id)
    → ((j : String) → is_some (find_user j us) ≡ is_some (find_user j s.users))
    → IsKeyed us
    → IsNonneg us
    → ((j : String) → balance_of us j +ℤ effect j t ≡ balance_of s.users j +ℤ effect j (f t))
    → IsSound (record s { users = us; txns = update_txn f i s.txns })
update-IsSound f i us s {t} h found same_id same_amount same_user same_users keyed nonneg agree =
    record {
      keyed = keyed;
      numbered = update_txn-IsNumbered f i s.next_txn s.txns same_id h.numbered;
      nonneg = nonneg;
      positive = update_txn-ArePositive f i s.txns same_amount h.positive;
      owned =
          update_txn-AreOwned us f i s.txns same_user
            (AreOwned-kept s.users us s.txns same_users h.owned);
      reconciled = λ j. grind (
        int_laws,
        agree j,
        h.reconciled j,
        ledger-update_txn j f i s.next_txn s.txns found h.numbered,
      );
    }

-- What `UPDATE users SET balance_cents = balance_cents + $1` does to a known user, when it succeeds.
pub credit-some :
    (id : String) (a : ℤ) (us : List User) {us' : List User}
    → credit id a us ≡ some us'
    → is_some (find_user id us) ≡ true
    → us' ≡ set_balance id (balance_of us id +ℤ a) us
unfolding credit
credit-some id a us h k = ground arith
