-- ===== src/Tables/Ledger.antt =====
-- The meaning of the rows of `wallet_transactions`: what each has done to its user's balance.
use ppv_stream_rust.Prelude.{
  ℕ, ◌<◌, ◌≤◌, String, ◌≡◌, refl, true, some, List, [], ◌∷◌, ◌==◌, nat_eq, arith, if◌then◌else◌,
  inl, inr, Bool-cases, All, All-mono, is_some, ◌∙◌,
}
use ppv_stream_rust.Prelude.Int.{ℤ, pos, ◌+ℤ◌, ◌-ℤ◌, ◌<ℤ◌, int_laws}
use ppv_stream_rust.Tables.{
  TxnType, deposit, withdrawal, transfer_in, transfer_out, payment, Status, approved, rejected,
  User, find_user, Txn, find_txn, update_txn,
}

-- A deposit counts once it is approved; a withdrawal counts unless it was rejected.
abbrev pub signed_amount : TxnType → Status → ℤ → ℤ
signed_amount deposit approved a = a
signed_amount deposit _ a = pos 0
signed_amount withdrawal rejected a = pos 0
signed_amount withdrawal _ a = pos 0 -ℤ a
signed_amount transfer_in _ a = a
signed_amount transfer_out _ a = pos 0 -ℤ a
signed_amount payment _ a = pos 0 -ℤ a

-- What row `t` has done to the balance of `j`.
unfoldable pub effect : String → Txn → ℤ
effect j t = if t.user_id == j then signed_amount t.txn_type t.status t.amount_cents else pos 0

unfoldable pub ledger : String → List Txn → ℤ
ledger j [] = pos 0
ledger j (t ∷ ts) = effect j t +ℤ ledger j ts

-- Row numbers fall strictly and stay below `n`: the numbers of a sequence, newest row first.
abbrev pub IsNumbered : ℕ → List Txn → Type 0
IsNumbered n [] = Unit
IsNumbered n (t ∷ ts) = (t.id < n) × IsNumbered t.id ts

pub IsNumbered-le : (m n : ℕ) (ts : List Txn) → m ≤ n → IsNumbered m ts → IsNumbered n ts
IsNumbered-le m n [] h k = tt
IsNumbered-le m n (t ∷ ts) h k = (omega arith, k.1)

update_txn_absent :
    (f : Txn → Txn) (i : ℕ) (ts : List Txn) → IsNumbered i ts → update_txn f i ts ≡ ts
unfolding update_txn
update_txn_absent f i [] h = refl
update_txn_absent f i (t ∷ ts) h =
    ground (arith, update_txn_absent f i ts (IsNumbered-le t.id i ts (omega arith) h.1))

pub update_txn-IsNumbered :
    (f : Txn → Txn) (i n : ℕ) (ts : List Txn)
    → ((t : Txn) → (f t).id ≡ t.id)
    → IsNumbered n ts
    → IsNumbered n (update_txn f i ts)
unfolding update_txn
update_txn-IsNumbered f i n [] keep h = tt
update_txn-IsNumbered f i n (t ∷ ts) keep h =
    ground (arith, keep t, update_txn-IsNumbered f i t.id ts keep h.1)

pub find_txn-id : (i : ℕ) (ts : List Txn) {t : Txn} → find_txn i ts ≡ some t → t.id ≡ i
unfolding find_txn
find_txn-id i [] h = cc
find_txn-id i (x ∷ ts) {t} h = ground (arith, find_txn-id i ts {t = t})

-- Every row belongs to a user of the table.
abbrev pub AreOwned : List User → List Txn → Type 0
AreOwned us = All (λ t. is_some (find_user t.user_id us) ≡ true)

pub owner_known :
    (i : ℕ) (us : List User) (ts : List Txn) {t : Txn}
    → find_txn i ts ≡ some t
    → AreOwned us ts
    → is_some (find_user t.user_id us) ≡ true
unfolding find_txn
owner_known i us [] h k = cc
owner_known i us (x ∷ ts) {t} h k = ground (arith, owner_known i us ts {t = t})

pub AreOwned-kept :
    (us vs : List User) (ts : List Txn)
    → ((j : String) → is_some (find_user j vs) ≡ is_some (find_user j us))
    → AreOwned us ts
    → AreOwned vs ts
AreOwned-kept us vs ts same h = All-mono _ _ ts (λ t k. same t.user_id ∙ k) h

pub update_txn-AreOwned :
    (us : List User) (f : Txn → Txn) (i : ℕ) (ts : List Txn)
    → ((t : Txn) → (f t).user_id ≡ t.user_id)
    → AreOwned us ts
    → AreOwned us (update_txn f i ts)
unfolding update_txn
update_txn-AreOwned us f i [] keep h = tt
update_txn-AreOwned us f i (t ∷ ts) keep h =
    ground (arith, keep t, update_txn-AreOwned us f i ts keep h.1)

abbrev pub ArePositive : List Txn → Type 0
ArePositive = All (λ t. pos 0 <ℤ t.amount_cents)

pub amount_positive :
    (i : ℕ) (ts : List Txn) {t : Txn}
    → find_txn i ts ≡ some t
    → ArePositive ts
    → pos 0 <ℤ t.amount_cents
unfolding find_txn
amount_positive i [] h k = cc
amount_positive i (x ∷ ts) {t} h k = ground (arith, amount_positive i ts {t = t})

pub update_txn-ArePositive :
    (f : Txn → Txn) (i : ℕ) (ts : List Txn)
    → ((t : Txn) → (f t).amount_cents ≡ t.amount_cents)
    → ArePositive ts
    → ArePositive (update_txn f i ts)
unfolding update_txn
update_txn-ArePositive f i [] keep h = tt
update_txn-ArePositive f i (t ∷ ts) keep h =
    ground (arith, keep t, update_txn-ArePositive f i ts keep h.1)

-- The updated row is found again.
pub find_txn-update_txn :
    (f : Txn → Txn) (i : ℕ) (ts : List Txn) {t : Txn}
    → ((x : Txn) → (f x).id ≡ x.id)
    → find_txn i ts ≡ some t
    → find_txn i (update_txn f i ts) ≡ some (f t)
unfolding find_txn update_txn
find_txn-update_txn f i [] keep h = cc
find_txn-update_txn f i (x ∷ ts) {t} keep h =
    ground (arith, keep x, find_txn-update_txn f i ts {t = t} keep)

-- An update of row `i` changes the ledger by the difference that it makes to that row.
pub ledger-update_txn :
    (j : String) (f : Txn → Txn) (i n : ℕ) (ts : List Txn) {t : Txn}
    → find_txn i ts ≡ some t
    → IsNumbered n ts
    → ledger j (update_txn f i ts) +ℤ effect j t ≡ ledger j ts +ℤ effect j (f t)
unfolding ledger find_txn update_txn
ledger-update_txn j f i n [] h k = cc
ledger-update_txn j f i n (x ∷ ts) {t} h k = elim (Bool-cases (nat_eq x.id i)) [
  | inl same ↦
      let found : x ≡ t = ground arith in
      let rest : update_txn f i ts ≡ ts =
        update_txn_absent f i ts (IsNumbered-le x.id i ts (ground arith) k.1) in
      rw (same, rest, found) (omega int_laws)
  | inr other ↦ grind (int_laws, ledger-update_txn j f i x.id ts {t = t})
]
