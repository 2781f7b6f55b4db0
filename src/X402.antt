-- ===== src/X402.antt =====
-- Payments on an EVM chain: src/handlers/pay.rs, src/services/x402_watcher.rs and the table
-- `x402_invoices` (migrations/014 to 029). Amounts of tokens are natural numbers of base units: the
-- code writes none below zero.

pub mod Quote
pub mod Start
pub mod Chain
pub mod Confirm
pub mod Rounds
pub mod Watcher
use ppv_stream_rust.Prelude.{
  ℕ, ◌+◌, String, Bool, true, false, Option, none, some, List, [], ◌∷◌, ◌==◌, nat_eq, if◌then◌else◌,
}
use ppv_stream_rust.Prelude.Int.{ℤ}
use ppv_stream_rust.Tables.{Store, find_second}

-- `status`; the code writes these three of the five that the table allows.
pub data InvoiceStatus : Type 0 where
  pending underpaid paid : InvoiceStatus

abbrev pub is_paid : InvoiceStatus → Bool
is_paid InvoiceStatus.paid = true
is_paid _ = false

-- `x402_invoices`; `invoice_uid` is unique, and `id` counts the rows.
pub record Invoice : Type 0 where
  pub id : ℕ
  pub invoice_uid : String
  pub invoice_uid_hash : Option String
  pub user_id : String
  pub video_id : String
  pub creator_id : String
  pub chain_id : ℤ
  pub token_symbol : String
  pub token_address : Option String
  pub price_cents : ℤ
  pub required_amount_wei : Option ℕ
  pub paid_amount_wei : Option ℕ
  pub status : InvoiceStatus
  pub tx_hash : Option String
  pub payer_address : Option String
  pub affiliate_ref : Option String

-- `pay_tokens`
pub record PayToken : Type 0 where
  pub chain_id : ℤ
  pub symbol : String
  pub decimals : ℕ
  pub erc20_address : Option String
  pub erc20 : Option String
  pub is_active : Bool

-- The tables of these payments beside those of the wallet. `wallets` has `users.wallet_account`,
-- and `remote` the pairs of `object_uri` and `checkout_url` of `remote_video_catalog`.
pub record Books : Type 0 where
  pub invoices : List Invoice
  pub next_invoice : ℕ
  pub tokens : List PayToken
  pub wallets : List (String × Option String)
  pub remote : List (String × Option String)
  pub main : Store

-- The statements outside the commission's transaction. Each stands alone, in no transaction.
pub data Query : Type 0 where
  select_settings select_video select_remote select_token insert_invoice set_ref : Query
  select_invoice mark insert_purchase select_name insert_allow select_ref select_extra : Query

-- SELECT ... FROM x402_invoices WHERE invoice_uid = $1 LIMIT 1
unfoldable pub find_invoice : String → List Invoice → Option Invoice
find_invoice uid [] = none
find_invoice uid (i ∷ is) = if i.invoice_uid == uid then some i else find_invoice uid is

-- UPDATE x402_invoices SET ... WHERE id = $1
unfoldable pub update_invoice : (Invoice → Invoice) → ℕ → List Invoice → List Invoice
update_invoice f id [] = []
update_invoice f id (i ∷ is) = (if nat_eq i.id id then f i else i) ∷ update_invoice f id is

-- UPDATE x402_invoices SET affiliate_ref = $1 WHERE invoice_uid = $2
unfoldable pub set_affiliate_ref : String → String → List Invoice → List Invoice
set_affiliate_ref name uid [] = []
set_affiliate_ref name uid (i ∷ is) =
    (if i.invoice_uid == uid then record i { affiliate_ref = some name } else i)
    ∷ set_affiliate_ref name uid is

-- `remote_video_checkout_url`: the URL of a video of another instance, if the video is one.
unfoldable pub remote_video_checkout_url : Bool → String → Books → Option (Option String)
remote_video_checkout_url lost video_id s = if lost then none else find_second video_id s.remote
