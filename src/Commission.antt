-- ===== src/Commission.antt =====
-- src/commission.rs: `process_affiliate_commission`.
pub mod Amount
pub mod Outcome
pub mod Atomic
pub mod Keeps
use ppv_stream_rust.Prelude.{
  ℕ, String, Bool, not, ◌||◌, Option, none, some, List, ◌∷◌, ◌++◌, if◌then◌else◌, ◌==◌,
}
use Prim.Native.String
use ppv_stream_rust.Prelude.Int.{ℤ, pos, ltb_ℤ, leb_ℤ, ◌*ℤ◌, quot, max0, is_zero}
use ppv_stream_rust.Prelude.Word.{wrap64, add64, sub64}
use ppv_stream_rust.Prelude.Attempt.{
  Attempt, done, stopped, ◌>>=◌, ◌>>◌, or_stop, stop_if, map_stop,
}
use ppv_stream_rust.Text.{trim}
use ppv_stream_rust.Tables.{
  Store, TxnType, Status, NewTxn, Commission, find_settings, find_username, balance_of,
}
use ppv_stream_rust.Transaction.{Stmt, Faults, Tx, opened, fetch_or, ignore, execute, commit_tx}
use ppv_stream_rust.Wallet.Settle.{settle}

-- `Result<i64, String>`, with the statement that an error names.
pub data CommissionResult : Type 0 where
  ok : ℤ → CommissionResult
  err : Stmt → CommissionResult

-- Why the function returns before its COMMIT: `Ok(0)`, or an error.
pub data Halt : Type 0 where
  skip : Halt
  broke : Stmt → Halt

-- `((price_cents as i128) * (commission_pct as i128) / 100).max(0) as i64`: the product of an i64 and
-- an i32 fits an i128.
unfoldable pub commission_of : ℤ → ℤ → ℤ
commission_of price pct = wrap64 (max0 (quot (price *ℤ pct) 100))

abbrev pub commission_row : TxnType → String → ℤ → ℤ → String → String → NewTxn
commission_row kind uid amount after other memo = record {
  user_id = uid;
  txn_type = kind;
  amount_cents = amount;
  balance_after = after;
  status = Status.completed;
  ref_user_id = some other;
  note = some memo;
}

-- The transaction: the creator `owner` pays the affiliate `aff`.
unfoldable pub commission_tx :
    Faults
    → String
    → String
    → String
    → String
    → ℤ
    → ℤ
    → String
    → Option String
    → Store
    → Attempt Halt Tx
commission_tx fails video buyer owner aff price cents method invoice s = do
  stop_if (fails Stmt.begin) (broke Stmt.begin)
  let locked = ignore fails Stmt.lock_rows (opened s)
  let (creator_bal, tx) =
      fetch_or fails Stmt.select_first (pos 0) (λ t. balance_of t.users owner) locked
  stop_if (ltb_ℤ creator_bal cents) skip
  let (aff_bal, tx') = fetch_or fails Stmt.select_second (pos 0) (λ t. balance_of t.users aff) tx
  let creator_new = sub64 creator_bal cents
  let aff_new = add64 aff_bal cents
  moved ← map_stop broke (
      settle fails owner creator_new aff aff_new
        (commission_row TxnType.transfer_out owner cents creator_new aff
          (String.◌++◌ "Affiliate commission: " video))
        (commission_row TxnType.transfer_in aff cents aff_new owner
          (String.◌++◌ "Commission earned: " video))
        tx')
  or_stop
      (execute fails Stmt.insert_commission
        (λ t. some (record t {
          commissions =
              record {
                video_id = video;
                affiliate_id = aff;
                buyer_id = buyer;
                owner_id = owner;
                purchase_price_cents = price;
                commission_cents = cents;
                payment_method = method;
                ref_invoice_uid = invoice;
              }
              ∷ t.commissions;
        }))
        moved)
      (broke Stmt.insert_commission)

-- What is decided before the transaction: the affiliate and the commission, or an early return.
unfoldable pub commission_plan :
    Faults → String → String → String → ℤ → String → Store → Attempt Halt (String × ℤ)
commission_plan fails video buyer owner price affiliate_username s = do
  let aff_username = trim affiliate_username
  stop_if (aff_username == "") skip
  stop_if (fails Stmt.select_settings) (broke Stmt.select_settings)
  settings ← or_stop (find_settings video s.affiliate_settings) skip
  stop_if (not settings.is_enabled || leb_ℤ settings.commission_pct (pos 0)) skip
  stop_if (fails Stmt.select_user) (broke Stmt.select_user)
  aff ← or_stop (find_username aff_username s.users) skip
  stop_if (aff.id == "" || aff.id == buyer || aff.id == owner) skip
  let cents = commission_of price settings.commission_pct
  stop_if (is_zero cents) skip
  done (aff.id, cents)

unfoldable pub commission_body :
    Faults
    → String
    → String
    → String
    → ℤ
    → String
    → String
    → Option String
    → Store
    → Attempt Halt (Tx × ℤ)
commission_body fails video buyer owner price affiliate_username method invoice s = do
  (aff, cents) ← commission_plan fails video buyer owner price affiliate_username s
  tx ← commission_tx fails video buyer owner aff price cents method invoice s
  done (tx, cents)

unfoldable pub process_affiliate_commission :
    Faults
    → String
    → String
    → String
    → ℤ
    → String
    → String
    → Option String
    → Store
    → CommissionResult × Store
process_affiliate_commission fails video buyer owner price affiliate_username method invoice s =
    elim (commission_body fails video buyer owner price affiliate_username method invoice s) [
      | stopped h ↦ elim h [ skip ↦ (ok (pos 0), s) | broke q ↦ (err q, s) ]
      | done (tx, cents) ↦ elim (commit_tx fails tx s) [
        | none ↦ (err Stmt.commit, s)
        | some s' ↦ (ok cents, s')
      ]
    ]
