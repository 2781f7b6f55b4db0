-- ===== src/Tables.antt =====
-- The database tables that the payment code reads and writes (migrations/, sql/), a row type for
-- each, and the SQL statements of the handlers as functions on them. Text columns that the code
-- compares are texts; columns that the code only stores, such as timestamps, are left out.
pub mod Users
pub mod Ledger
pub mod Total
pub mod Nonneg
pub mod Sound
pub mod Rows
use ppv_stream_rust.Prelude.{
  ℕ, ◌+◌, String, Bool, true, false, ◌&&◌, ◌||◌, Option, none, some, List, [], ◌∷◌, ◌++◌, ◌==◌,
  nat_eq, if◌then◌else◌, is_some, or_else, ltb,
}
use ppv_stream_rust.Prelude.Int.{ℤ, pos, pos_part, neg_part, ◌+ℤ◌, ltb_ℤ}
use ppv_stream_rust.Prelude.Word.{fits_i64}
use ppv_stream_rust.Settings.{PaymentSettings}

-- `users`
pub record User : Type 0 where
  pub id : String
  pub username : String
  pub is_admin : Bool
  pub balance_cents : ℤ

-- `wallet_transactions.txn_type`
pub data TxnType : Type 0 where
  deposit withdrawal transfer_in transfer_out payment : TxnType

-- `wallet_transactions.status`
pub data Status : Type 0 where
  pending approved completed rejected : Status

-- `wallet_transactions`
pub record Txn : Type 0 where
  pub id : ℕ
  pub user_id : String
  pub txn_type : TxnType
  pub amount_cents : ℤ
  pub balance_after : ℤ
  pub status : Status
  pub ref_user_id : Option String
  pub note : Option String
  pub admin_note : Option String

-- `videos`
pub record Video : Type 0 where
  pub id : String
  pub owner_id : String
  pub price_cents : ℤ

-- `affiliate_settings`
pub record AffiliateSettings : Type 0 where
  pub video_id : String
  pub commission_pct : ℤ
  pub is_enabled : Bool

-- `affiliate_commissions`
pub record Commission : Type 0 where
  pub video_id : String
  pub affiliate_id : String
  pub buyer_id : String
  pub owner_id : String
  pub purchase_price_cents : ℤ
  pub commission_cents : ℤ
  pub payment_method : String
  pub ref_invoice_uid : Option String

-- `creator_blocked_users`; without `expires_at` a block lasts.
pub record Block : Type 0 where
  pub creator_user_id : String
  pub blocked_user_id : String
  pub ban_type : String
  pub reason : Option String
  pub expires_at : Option ℕ

-- The tables, with the next value of the sequence behind `wallet_transactions.id`. Pairs of
-- `purchases` are a user and a video, those of `allowlist` a video and a username, and those of
-- `paid_fiat` a user and a video of a fiat invoice with status paid. `clock` is the database's NOW(), in seconds.
pub record Store : Type 0 where
  pub users : List User
  pub txns : List Txn
  pub next_txn : ℕ
  pub videos : List Video
  pub purchases : List (String × String)
  pub allowlist : List (String × String)
  pub paid_fiat : List (String × String)
  pub affiliate_settings : List AffiliateSettings
  pub commissions : List Commission
  pub payment_settings : Option PaymentSettings
  pub blocks : List Block
  pub clock : ℕ

-- SELECT ... FROM users WHERE id = $1
unfoldable pub find_user : String → List User → Option User
find_user id [] = none
find_user id (u ∷ us) = if u.id == id then some u else find_user id us

-- SELECT id, username FROM users WHERE username = $1 LIMIT 1
unfoldable pub find_username : String → List User → Option User
find_username name [] = none
find_username name (u ∷ us) = if u.username == name then some u else find_username name us

-- SELECT balance_cents FROM users WHERE id = $1, with `unwrap_or(0)` on a missing row
unfoldable pub balance_of : List User → String → ℤ
balance_of us id = elim (find_user id us) [ none ↦ pos 0 | some u ↦ u.balance_cents ]

-- UPDATE users SET balance_cents = $1 WHERE id = $2
unfoldable pub set_balance : String → ℤ → List User → List User
set_balance id v [] = []
set_balance id v (u ∷ us) =
    (if u.id == id then record u { balance_cents = v } else u) ∷ set_balance id v us

-- UPDATE users SET balance_cents = balance_cents + $1 WHERE id = $2: BIGINT addition out of range
-- is an error of the statement, here `none`.
unfoldable pub credit : String → ℤ → List User → Option (List User)
credit id a us =
    let v = balance_of us id +ℤ a in
    if is_some (find_user id us)
    then (if fits_i64 v then some (set_balance id v us) else none)
    else some us

-- SELECT user_id, txn_type, amount_cents, status FROM wallet_transactions WHERE id = $1
unfoldable pub find_txn : ℕ → List Txn → Option Txn
find_txn i [] = none
find_txn i (t ∷ ts) = if nat_eq t.id i then some t else find_txn i ts

-- UPDATE wallet_transactions SET ... WHERE id = $1
unfoldable pub update_txn : (Txn → Txn) → ℕ → List Txn → List Txn
update_txn f i [] = []
update_txn f i (t ∷ ts) = (if nat_eq t.id i then f t else t) ∷ update_txn f i ts

-- The columns that an INSERT INTO wallet_transactions gives.
pub record NewTxn : Type 0 where
  pub user_id : String
  pub txn_type : TxnType
  pub amount_cents : ℤ
  pub balance_after : ℤ
  pub status : Status
  pub ref_user_id : Option String
  pub note : Option String

abbrev pub row_of : ℕ → NewTxn → Txn
row_of i n = record {
  id = i;
  user_id = n.user_id;
  txn_type = n.txn_type;
  amount_cents = n.amount_cents;
  balance_after = n.balance_after;
  status = n.status;
  ref_user_id = n.ref_user_id;
  note = n.note;
  admin_note = none;
}

-- `ref_user_id` is null or names a user.
unfoldable pub known_ref : List User → Option String → Bool
known_ref us none = true
known_ref us (some r) = is_some (find_user r us)

-- INSERT INTO wallet_transactions: the row must satisfy CHECK (amount_cents > 0) and the two
-- references to `users` (migrations/028_wallet.sql).
unfoldable pub insert_txn : NewTxn → Store → Option Store
insert_txn n s =
    if ltb_ℤ (pos 0) n.amount_cents
      && is_some (find_user n.user_id s.users)
      && known_ref s.users n.ref_user_id
    then some (record s { txns = row_of s.next_txn n ∷ s.txns; next_txn = s.next_txn + 1 })
    else none

-- SELECT ... FROM videos WHERE id = $1 LIMIT 1
unfoldable pub find_video : String → List Video → Option Video
find_video id [] = none
find_video id (v ∷ vs) = if v.id == id then some v else find_video id vs

-- SELECT ... FROM affiliate_settings WHERE video_id = $1 LIMIT 1
unfoldable pub find_settings : String → List AffiliateSettings → Option AffiliateSettings
find_settings id [] = none
find_settings id (a ∷ as') = if a.video_id == id then some a else find_settings id as'

-- expires_at IS NULL OR expires_at > NOW()
abbrev pub is_active : ℕ → Option ℕ → Bool
is_active now none = true
is_active now (some t) = ltb now t

-- SELECT COUNT(*) FROM creator_blocked_users WHERE ..., as a test for more than none
unfoldable pub is_blocked : String → String → ℕ → List Block → Bool
is_blocked creator user now [] = false
is_blocked creator user now (b ∷ bs) =
    (b.creator_user_id == creator && b.blocked_user_id == user && is_active now b.expires_at)
    || is_blocked creator user now bs

-- EXISTS (SELECT 1 ... WHERE $1 AND $2) over a table of pairs
unfoldable pub has_pair : String → String → List (String × String) → Bool
has_pair a b [] = false
has_pair a b ((c, d) ∷ ps) = (c == a && d == b) || has_pair a b ps

-- INSERT ... ON CONFLICT (video_id, username) DO NOTHING
unfoldable pub insert_pair : String → String → List (String × String) → List (String × String)
insert_pair a b ps = if has_pair a b ps then ps else (a, b) ∷ ps

-- A row of a table of pairs by its first column.
unfoldable pub find_second {ℓ} : {A : Type ℓ} → String → List (String × A) → Option A
find_second k [] = none
find_second k ((j, a) ∷ rest) = if j == k then some a else find_second k rest
