-- ===== src/Wallet/Admin/Credit.antt =====
-- A credit of one user's balance, as approvals and refunds make it.
use ppv_stream_rust.Prelude.{String, ◌≡◌, true, List, if◌then◌else◌, is_some, ◌==◌, eq_iff}
use ppv_stream_rust.Prelude.Int.{ℤ, pos, ◌+ℤ◌, ◌≤ℤ◌, int_laws}
use ppv_stream_rust.Tables.{User, find_user, balance_of}
use ppv_stream_rust.Tables.Users.{balance_of-set_balance, is_some-find_user-set_balance}
use ppv_stream_rust.Tables.Total.{IsKeyed, set_balance-IsKeyed}
use ppv_stream_rust.Tables.Nonneg.{IsNonneg, set_balance-IsNonneg, balance_nonneg}
use ppv_stream_rust.Wallet.Admin.Outcome.{credited}

module _ (id : String) (amount : ℤ) (us : List User) where
  pub balance_of-credited :
      (j : String)
      → is_some (find_user id us) ≡ true
      → balance_of (credited id amount us) j
        ≡ balance_of us j +ℤ (if id == j then amount else pos 0)
  unfolding credited
  balance_of-credited j known =
      grind
        (int_laws, balance_of-set_balance id j (balance_of us id +ℤ amount) us known, eq_iff id j)

  pub credited-IsKeyed : IsKeyed us → IsKeyed (credited id amount us)
  unfolding credited
  credited-IsKeyed h = set_balance-IsKeyed id (balance_of us id +ℤ amount) us h

  pub credited-IsNonneg : pos 0 ≤ℤ amount → IsNonneg us → IsNonneg (credited id amount us)
  unfolding credited
  credited-IsNonneg p h =
      set_balance-IsNonneg id (balance_of us id +ℤ amount) us
        (omega (int_laws, balance_nonneg id us h, p)) h

  pub is_some-find_user-credited :
      (j : String) → is_some (find_user j (credited id amount us)) ≡ is_some (find_user j us)
  unfolding credited
  is_some-find_user-credited j = is_some-find_user-set_balance id j (balance_of us id +ℤ amount) us
