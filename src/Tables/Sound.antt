-- ===== src/Tables/Sound.antt =====
-- The invariant of the wallet's tables.
use ppv_stream_rust.Prelude.{String, ◌≡◌, ◌^◌}
use ppv_stream_rust.Prelude.Int.{pos, ◌<ℤ◌}
use ppv_stream_rust.Tables.{Store, balance_of}
use ppv_stream_rust.Tables.Ledger.{ledger, IsNumbered, ArePositive, AreOwned}
use ppv_stream_rust.Tables.Total.{total, IsKeyed}
use ppv_stream_rust.Tables.Nonneg.{IsNonneg}

-- Ids and row numbers are keys, no balance is negative, every row carries a positive amount and
-- belongs to a user, and each user's balance is the sum of what the user's rows of `wallet_transactions` have done to it.
pub record IsSound (s : Store) : Type 0 where
  pub keyed : IsKeyed s.users
  pub numbered : IsNumbered s.next_txn s.txns
  pub nonneg : IsNonneg s.users
  pub positive : ArePositive s.txns
  pub owned : AreOwned s.users s.txns
  pub reconciled : (j : String) → balance_of s.users j ≡ ledger j s.txns

-- All balances together stay below 2 ^ 63 cents.
abbrev pub HasRoom : Store → Type 0
HasRoom s = total s.users <ℤ pos (2 ^ 63)

-- The invariant speaks of users, rows and the sequence only.
pub IsSound-kept :
    {t : Store} (t' : Store)
    → t'.users ≡ t.users
    → t'.txns ≡ t.txns
    → t'.next_txn ≡ t.next_txn
    → IsSound t
    → IsSound t'
IsSound-kept t' hu ht hn h = record {
  keyed = rw hu h.keyed;
  numbered = rw (hn, ht) h.numbered;
  nonneg = rw hu h.nonneg;
  positive = rw ht h.positive;
  owned = rw (hu, ht) h.owned;
  reconciled = λ j. rw (hu, ht) (h.reconciled j);
}
