-- ===== src/Tables/Total.antt =====
-- The sum of all balances, and the rule that `users.id` is a primary key.
use ppv_stream_rust.Prelude.{String, ◌≡◌, refl, true, none, List, [], ◌∷◌, eq_iff, arith, is_some}
use ppv_stream_rust.Prelude.Int.{ℤ, pos, ◌+ℤ◌, int_laws}
use ppv_stream_rust.Tables.{User, find_user, balance_of, set_balance}
use ppv_stream_rust.Tables.Users.{find_user-set_balance}

unfoldable pub total : List User → ℤ
total [] = pos 0
total (u ∷ us) = u.balance_cents +ℤ total us

-- No two rows have one id.
abbrev pub IsKeyed : List User → Type 0
IsKeyed [] = Unit
IsKeyed (u ∷ us) = (find_user u.id us ≡ none) × IsKeyed us

pub set_balance-IsKeyed :
    (id : String) (v : ℤ) (us : List User) → IsKeyed us → IsKeyed (set_balance id v us)
unfolding set_balance
set_balance-IsKeyed id v [] h = tt
set_balance-IsKeyed id v (u ∷ us) h =
    ground (arith, find_user-set_balance u.id id v us, set_balance-IsKeyed id v us h.1)

set_balance_absent :
    (id : String) (v : ℤ) (us : List User) → find_user id us ≡ none → set_balance id v us ≡ us
unfolding find_user set_balance
set_balance_absent id v [] h = refl
set_balance_absent id v (u ∷ us) h = ground (arith, set_balance_absent id v us)

pub total-set_balance :
    (id : String) (v : ℤ) (us : List User)
    → IsKeyed us
    → is_some (find_user id us) ≡ true
    → total (set_balance id v us) +ℤ balance_of us id ≡ total us +ℤ v
unfolding total find_user set_balance balance_of
total-set_balance id v [] h k = cc
total-set_balance id v (u ∷ us) h k =
    grind (int_laws, eq_iff u.id id, set_balance_absent id v us, total-set_balance id v us h.1)
