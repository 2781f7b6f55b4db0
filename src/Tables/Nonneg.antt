-- ===== src/Tables/Nonneg.antt =====
-- Balances without a debt, and what bounds each of them by the total.
use ppv_stream_rust.Prelude.{String, ◌≢◌, List, [], ◌∷◌, eq_iff, arith, All}
use ppv_stream_rust.Prelude.Int.{ℤ, pos, ◌+ℤ◌, ◌≤ℤ◌, int_laws}
use ppv_stream_rust.Tables.{User, find_user, balance_of, set_balance}
use ppv_stream_rust.Tables.Total.{total}

abbrev pub IsNonneg : List User → Type 0
IsNonneg = All (λ u. pos 0 ≤ℤ u.balance_cents)

pub set_balance-IsNonneg :
    (id : String) (v : ℤ) (us : List User)
    → pos 0 ≤ℤ v
    → IsNonneg us
    → IsNonneg (set_balance id v us)
unfolding set_balance
set_balance-IsNonneg id v [] p h = tt
set_balance-IsNonneg id v (u ∷ us) p h = ground (arith, set_balance-IsNonneg id v us p h.1)

pub balance_nonneg : (id : String) (us : List User) → IsNonneg us → pos 0 ≤ℤ balance_of us id
unfolding find_user balance_of
balance_nonneg id [] h = omega arith
balance_nonneg id (u ∷ us) h = ground (arith, balance_nonneg id us h.1)

pub total_nonneg : (us : List User) → IsNonneg us → pos 0 ≤ℤ total us
unfolding total
total_nonneg [] h = omega arith
total_nonneg (u ∷ us) h = omega (int_laws, total_nonneg us h.1, h.0)

pub balance-le-total : (id : String) (us : List User) → IsNonneg us → balance_of us id ≤ℤ total us
unfolding find_user balance_of total
balance-le-total id [] h = omega arith
balance-le-total id (u ∷ us) h = grind (int_laws, total_nonneg us h.1, balance-le-total id us h.1)

pub pair-le-total :
    (i j : String) (us : List User)
    → i ≢ j
    → IsNonneg us
    → balance_of us i +ℤ balance_of us j ≤ℤ total us
unfolding find_user balance_of total
pair-le-total i j [] ne h = omega int_laws
pair-le-total i j (u ∷ us) ne h = grind (
  int_laws,
  eq_iff u.id i,
  eq_iff u.id j,
  balance-le-total i us h.1,
  balance-le-total j us h.1,
  total_nonneg us h.1,
  pair-le-total i j us ne h.1,
)
