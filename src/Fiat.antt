-- ===== src/Fiat.antt =====
-- src/handlers/payment_plugins.rs and the table `fiat_invoices` (migrations/026_fiat_invoices.sql):
-- payments through PayPal, Stripe, Midtrans and Xendit. The providers' servers are parameters.
pub mod Registry
pub mod Providers
pub mod Onchain
pub mod Create
pub mod Webhook
use ppv_stream_rust.Prelude.{
  ℕ, ◌+◌, String, Bool, true, false, ◌&&◌, Option, none, some, List, [], ◌∷◌, ◌==◌, if◌then◌else◌,
}
use ppv_stream_rust.Prelude.Int.{ℤ}
use ppv_stream_rust.Tables.{Store}
use ppv_stream_rust.X402.{Invoice, PayToken}

-- `status`; the code writes these two.
pub data FiatStatus : Type 0 where
  pending paid : FiatStatus

-- `fiat_invoices`; `invoice_uid` is unique. Of `paid_at` only whether it is set matters.
pub record FiatInvoice : Type 0 where
  pub invoice_uid : String
  pub provider : String
  pub provider_ref : Option String
  pub payment_url : Option String
  pub user_id : String
  pub video_id : String
  pub creator_id : String
  pub amount : ℤ
  pub currency : String
  pub buyer_email : String
  pub status : FiatStatus
  pub has_paid_at : Bool
  pub disburse_ref : Option String
  pub affiliate_ref : Option String

-- A payout that Xendit has accepted: the account, the amount and the invoice.
pub record Payout : Type 0 where
  pub bank_account : String
  pub amount : ℤ
  pub invoice_uid : String

-- The tables of these payments beside those of the wallet, and the payouts that were made. `banks`
-- has `users.bank_account`, `emails` has `users.email`, and `titles` has `videos.title`; the x402 plugin
-- writes `x402_invoices`, and reads `pay_tokens` and, in `wallets`, `users.wallet_account`.
pub record Desk : Type 0 where
  pub invoices : List FiatInvoice
  pub payouts : List Payout
  pub banks : List (String × Option String)
  pub emails : List (String × Option String)
  pub titles : List (String × String)
  pub x402_invoices : List Invoice
  pub next_x402 : ℕ
  pub tokens : List PayToken
  pub wallets : List (String × Option String)
  pub main : Store

-- The statements outside the commission's transaction. Each stands alone, in no transaction.
pub data Query : Type 0 where
  select_video select_email insert_invoice set_ref store_provider delete_invoice : Query
  select_x402_video select_pay_token insert_x402 : Query
  select_invoice mark insert_purchase insert_allow select_ref mark_disbursed : Query

-- `PaymentStatus`
pub data PaymentStatus : Type 0 where
  pending paid failed expired cancelled underpaid unknown : PaymentStatus

abbrev pub is_paid : PaymentStatus → Bool
is_paid PaymentStatus.paid = true
is_paid _ = false

-- `PaymentResult`
pub record PaymentResult : Type 0 where
  pub invoice_id : String
  pub transaction_id : Option String
  pub status : PaymentStatus
  pub paid_amount_cents : ℤ
  pub currency : String

-- What a webhook brings: the texts and the whole numbers of its JSON body by their path, and its
-- headers by their names in lower case.
pub record WebhookRequest : Type 0 where
  pub text_at : String → Option String
  pub int_at : String → Option ℤ
  pub header : String → Option String
  pub raw : String

pub record CreateInvoiceRequest : Type 0 where
  pub user_id : String
  pub video_id : String
  pub amount_cents : ℤ
  pub currency : String
  pub buyer_email : Option String
  pub invoice_uid : String
  pub video_title : String
  pub metadata : String → Option String

-- What a provider answers: the three references that its `raw` may hold, and where to pay.
pub record ProviderInvoice : Type 0 where
  pub order_id : Option String
  pub xendit_invoice_id : Option String
  pub session_id : Option String
  pub payment_url : Option String

-- SELECT ... FROM fiat_invoices WHERE invoice_uid = $1
unfoldable pub find_invoice : String → List FiatInvoice → Option FiatInvoice
find_invoice uid [] = none
find_invoice uid (i ∷ is) = if i.invoice_uid == uid then some i else find_invoice uid is

-- UPDATE fiat_invoices SET ... WHERE invoice_uid = $1
unfoldable pub update_invoice :
    (FiatInvoice → FiatInvoice) → String → List FiatInvoice → List FiatInvoice
update_invoice f uid [] = []
update_invoice f uid (i ∷ is) = (if i.invoice_uid == uid then f i else i) ∷ update_invoice f uid is

-- DELETE FROM fiat_invoices WHERE invoice_uid = $1
unfoldable pub delete_invoices : String → List FiatInvoice → List FiatInvoice
delete_invoices uid [] = []
delete_invoices uid (i ∷ is) =
    let rest = delete_invoices uid is in if i.invoice_uid == uid then rest else i ∷ rest

abbrev is_paid_row : FiatStatus → Bool
is_paid_row FiatStatus.paid = true
is_paid_row FiatStatus.pending = false

-- The user and the video of each paid invoice, as `user_has_view_access` reads the table.
unfoldable pub paid_pairs : List FiatInvoice → List (String × String)
paid_pairs [] = []
paid_pairs (i ∷ is) =
    let rest = paid_pairs is in
    if is_paid_row i.status then (i.user_id, i.video_id) ∷ rest else rest

-- A row is final once it is paid and has its time.
abbrev pub is_final : FiatInvoice → Bool
is_final i = is_paid_row i.status && i.has_paid_at

-- The tables with other invoices, and with what they tell `user_has_view_access`.
abbrev pub with_invoices : List FiatInvoice → Desk → Desk
with_invoices is s = record s { invoices = is; main = record s.main { paid_fiat = paid_pairs is } }
