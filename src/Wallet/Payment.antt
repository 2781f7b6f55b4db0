-- ===== src/Wallet/Payment.antt =====
-- src/handlers/wallet.rs: `wallet_pay_video`.
pub mod Split
pub mod Outcome
pub mod Checks
pub mod Atomic
pub mod Succeeds
pub mod NoShare
use Prim.Native.String
use ppv_stream_rust.Prelude.{
  ℕ, ◌*◌, String, Bool, true, false, not, ◌&&◌, Option, none, some, List, ◌∷◌, if◌then◌else◌, ◌==◌,
  is_some, ◌^◌, ◌-◌,
}
use Prim.Native.Nat.{min}
use ppv_stream_rust.Prelude.Int.{ℤ, pos, negsuc, ltb_ℤ, leb_ℤ, ◌*ℤ◌, quot}
use ppv_stream_rust.Prelude.Word.{wrap64, add64, sub64}
use ppv_stream_rust.Prelude.Attempt.{
  Attempt, done, stopped, ◌>>=◌, ◌>>◌, or_stop, stop_if, map_stop,
}
use ppv_stream_rust.Settings.{load_payment_settings}
use ppv_stream_rust.Tables.{
  Store, TxnType, Status, NewTxn, Video, find_user, find_video, balance_of, is_blocked, has_pair,
  insert_pair,
}
use ppv_stream_rust.Transaction.{Stmt, Faults, Tx, opened, fetch_or, ignore, execute, commit_tx}
use ppv_stream_rust.Commission.{process_affiliate_commission}
use ppv_stream_rust.Wallet.Settle.{settle}
use ppv_stream_rust.Wallet.{Session, Error, Reply, finish, failed, access_granted}

-- i128 saturation
abbrev pub sat128 : ℤ → ℤ
sat128 (pos n) = pos (min n (2 ^ 127 - 1))
sat128 (negsuc n) = negsuc (min n (2 ^ 127 - 1))

-- `(price_cents as i128).saturating_mul(creator_split_bp as i128) / 10_000`, then `as i64`
unfoldable pub creator_cut_of : ℤ → ℕ → ℤ
creator_cut_of price bp = wrap64 (quot (sat128 (price *ℤ pos bp)) 10000)

abbrev pub payment_row : TxnType → String → ℤ → ℤ → String → String → NewTxn
payment_row kind uid amount after other memo = record {
  user_id = uid;
  txn_type = kind;
  amount_cents = amount;
  balance_after = after;
  status = Status.completed;
  ref_user_id = some other;
  note = some memo;
}

-- INSERT INTO purchases ... ON CONFLICT DO NOTHING. The table has no unique column but its own serial
-- number (sql/006_indexes.sql), so nothing conflicts; user and video are references. A trigger refuses a buyer whom the owner of the
-- video has blocked (migrations/035_creator_blocked_users.sql).
-- `prevent_blocked_creator_purchase`
abbrev pub owner_blocks : String → String → Store → Bool
owner_blocks uid video s = elim (find_video video s.videos) [
  | none ↦ false
  | some v ↦ is_blocked v.owner_id uid s.clock s.blocks
]

unfoldable pub insert_purchase : String → String → Store → Option Store
insert_purchase uid video s =
    if is_some (find_user uid s.users)
      && is_some (find_video video s.videos)
      && not (owner_blocks uid video s)
    then some (record s { purchases = (uid, video) ∷ s.purchases })
    else none

-- What the handler has read before its transaction.
pub record Order : Type 0 where
  pub buyer_id : String
  pub buyer_username : String
  pub video : Video
  pub creator_cut : ℤ

-- The allowlist row of the buyer, unless the username is unknown.
unfoldable pub grant : Faults → Order → Tx → Option Tx
grant fails o tx =
    if o.buyer_username == ""
    then some tx
    else execute fails Stmt.insert_allow
        (λ t. some (record t { allowlist = insert_pair o.video.id o.buyer_username t.allowlist }))
        tx

-- The transaction of a purchase.
unfoldable pub payment_tx : Faults → Order → Store → Attempt Error (Tx × Reply)
payment_tx fails o s = do
  let price = o.video.price_cents
  let owner = o.video.owner_id
  stop_if (fails Stmt.begin) (Error.db_failed Stmt.begin)
  let locked = ignore fails Stmt.lock_rows (opened s)
  let (buyer_bal, tx) =
      fetch_or fails Stmt.select_first (pos 0) (λ t. balance_of t.users o.buyer_id) locked
  stop_if (ltb_ℤ buyer_bal price) (Error.insufficient_balance buyer_bal)
  let (creator_bal, tx') =
      fetch_or fails Stmt.select_second (pos 0) (λ t. balance_of t.users owner) tx
  let buyer_new = sub64 buyer_bal price
  let creator_new = add64 creator_bal o.creator_cut
  moved ← map_stop Error.db_failed (
      settle fails o.buyer_id buyer_new owner creator_new
        (payment_row TxnType.payment o.buyer_id price buyer_new owner
          (String.◌++◌ "Video purchase: " o.video.id))
        (payment_row TxnType.transfer_in owner o.creator_cut creator_new o.buyer_id
          (String.◌++◌ "Video sale: " o.video.id))
        tx')
  bought ←
      or_stop (execute fails Stmt.insert_purchase (insert_purchase o.buyer_id o.video.id) moved)
        (Error.db_failed Stmt.insert_purchase)
  granted ← or_stop (grant fails o bought) (Error.db_failed Stmt.insert_allow)
  done (granted, access_granted buyer_new o.creator_cut price)

-- `SELECT username FROM users WHERE id = $1`, empty where there is none
abbrev pub username_of : Faults → String → Store → String
username_of fails uid s =
    if fails Stmt.select_name
    then ""
    else elim (find_user uid s.users) [ none ↦ "" | some u ↦ u.username ]

-- The checks before the transaction. The query joins the video with its owner.
unfoldable pub payment_order : Faults → ℕ → Session → String → Store → Attempt Error Order
payment_order fails split_bp session video_id s = do
  stop_if
      (not
        (load_payment_settings (fails Stmt.select_settings)
          s.payment_settings).wallet_payment_enabled)
      Error.disabled
  (uid, _) ← or_stop session Error.not_logged_in
  stop_if (video_id == "") Error.video_id_required
  stop_if (fails Stmt.select_video) (Error.db_failed Stmt.select_video)
  video ← or_stop (find_video video_id s.videos) Error.video_not_found
  owner ← or_stop (find_user video.owner_id s.users) Error.video_not_found
  stop_if (video.owner_id == uid) Error.own_video
  stop_if (leb_ℤ video.price_cents (pos 0)) Error.no_price
  stop_if (not (fails Stmt.select_purchase) && has_pair uid video_id s.purchases)
      Error.already_purchased
  done (record {
    buyer_id = uid;
    buyer_username = username_of fails uid s;
    video = video;
    creator_cut = creator_cut_of video.price_cents split_bp;
  })

-- A transaction that has read its order on the tables of an earlier moment.
unfoldable pub payment_body : Faults → Attempt Error Order → Store → Attempt Error (Tx × Reply)
payment_body fails order s = do o ← order; payment_tx fails o s

-- After the COMMIT: the commission, whose result is only logged.
unfoldable pub after_payment : Faults → Option String → Attempt Error Order → Reply → Store → Store
after_payment fails ref_code (done o) (access_granted b c p) s = elim ref_code [
  | none ↦ s
  | some name ↦
      if name == ""
      then s
      else (process_affiliate_commission fails o.video.id o.buyer_id o.video.owner_id
          o.video.price_cents name "wallet" none s).1
]
after_payment fails ref_code _ _ s = s

-- `wallet_pay_video`; the commission's statements fail by `later`.
unfoldable pub wallet_pay_video :
    Faults → Faults → ℕ → Session → String → Option String → Store → Reply × Store
wallet_pay_video fails later split_bp session video_id ref_code s =
    let order = payment_order fails split_bp session video_id s in
    let (r, s') = finish fails s (payment_body fails order s) in
    (r, after_payment later ref_code order r s')
