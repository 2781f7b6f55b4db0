-- ===== src/Fiat/Webhook.antt =====
-- src/handlers/payment_plugins.rs: `handle_webhook`.
pub mod Rows
pub mod Once
pub mod Granted
pub mod Overtaken
use ppv_stream_rust.Prelude.{
  ℕ, String, Bool, true, false, not, ◌&&◌, ◌||◌, Option, none, some, List, [], ◌∷◌, ◌==◌, or_else,
  is_some, if◌then◌else◌,
}
use ppv_stream_rust.Prelude.Int.{ℤ}
use ppv_stream_rust.Prelude.Attempt.{Attempt, done, stopped, ◌>>=◌, ◌>>◌, or_stop, stop_if}
use ppv_stream_rust.Text.{trim}
use ppv_stream_rust.Tables.{find_second, Store, find_user}
use ppv_stream_rust.Transaction.{Faults}
use ppv_stream_rust.Commission.{process_affiliate_commission}
use ppv_stream_rust.Unlock.{try_purchase, try_allow}
use ppv_stream_rust.Fiat.{
  FiatStatus, FiatInvoice, Payout, Desk, Query, PaymentStatus, is_paid, PaymentResult,
  WebhookRequest, find_invoice, update_invoice, is_final, with_invoices,
}

-- The answers to a webhook that nothing is written for.
pub data Rejection : Type 0 where
  provider_not_found refused invoice_not_found db_error : Rejection
  not_paid : PaymentStatus → String → Rejection
  replayed : String → Rejection

pub data WebhookReply : Type 0 where
  rejected : Rejection → WebhookReply
  granted : String → WebhookReply

-- The plugins: `registry.get`, with `confirm_payment` of the plugin that it answers, and
-- `disburse_to_creator` of Xendit, which answers the reference of the payout or fails.
pub record Plugins : Type 0 where
  pub confirm_payment : String → Option (WebhookRequest → Option PaymentResult)
  pub disburse : String → ℤ → String → Option String

-- The invoice, its buyer's name and its creator's bank account: the query joins the two users.
pub record Claim : Type 0 where
  pub invoice : FiatInvoice
  pub buyer_username : String
  pub creator_bank : Option String

unfoldable pub find_claim : String → Desk → Option Claim
find_claim uid s = elim (find_invoice uid s.invoices) [
  | none ↦ none
  | some i ↦ elim (find_user i.user_id s.main.users) [
    | none ↦ none
    | some buyer ↦
        if is_some (find_user i.creator_id s.main.users)
        then some (record {
          invoice = i;
          buyer_username = buyer.username;
          creator_bank = or_else (find_second i.creator_id s.banks) none;
        })
        else none
  ]
]

-- What is checked before anything is written.
unfoldable pub accepted :
    Plugins
    → (Query → Bool)
    → String
    → WebhookRequest
    → Desk
    → Attempt Rejection (PaymentResult × Claim)
accepted p fails provider body s = do
  confirm ← or_stop (p.confirm_payment provider) provider_not_found
  result ← or_stop (confirm body) refused
  stop_if (not (is_paid result.status)) (not_paid result.status result.invoice_id)
  stop_if (fails Query.select_invoice) db_error
  claim ← or_stop (find_claim result.invoice_id s) invoice_not_found
  stop_if (is_final claim.invoice) (replayed result.invoice_id)
  done (result, claim)

-- UPDATE fiat_invoices SET status = 'paid', paid_at = now(), provider_ref = COALESCE(provider_ref, $2)
unfoldable pub finalized : Option String → FiatInvoice → FiatInvoice
finalized transaction i = record i {
  status = FiatStatus.paid;
  has_paid_at = true;
  provider_ref = some (or_else i.provider_ref (or_else transaction ""));
}

unfoldable pub mark_paid : (Query → Bool) → PaymentResult → Desk → Desk
mark_paid fails result s =
    if fails Query.mark
    then s
    else with_invoices
        (update_invoice (finalized result.transaction_id) result.invoice_id s.invoices) s

abbrev ref_of : Option FiatInvoice → String
ref_of none = ""
ref_of (some row) = or_else row.affiliate_ref ""

-- The commission of the affiliate that the invoice names; its result is only logged.
unfoldable pub pay_affiliate : (Query → Bool) → Faults → String → String → FiatInvoice → Desk → Desk
pay_affiliate fails later provider uid i s =
    let name = ref_of (find_invoice uid s.invoices) in
    if fails Query.select_ref || name == "" then s else record s {
      main =
          (process_affiliate_commission later i.video_id i.user_id i.creator_id i.amount name
            provider (some uid) s.main).1;
    }

abbrev disbursed : String → FiatInvoice → FiatInvoice
disbursed ref i = record i { disburse_ref = some ref }

-- UPDATE fiat_invoices SET disbursed_at = now(), disburse_ref = $1
abbrev note_payout : (Query → Bool) → String → String → Desk → Desk
note_payout fails ref uid s =
    if fails Query.mark_disbursed
    then s
    else with_invoices (update_invoice (disbursed ref) uid s.invoices) s

-- The payout to the creator's bank account.
unfoldable pub pay_creator : Plugins → (Query → Bool) → String → Claim → Desk → Desk
pay_creator p fails uid claim s = elim claim.creator_bank [
  | none ↦ s
  | some account ↦
      if trim account == "" then s else elim (p.disburse account claim.invoice.amount uid) [
        | none ↦ s
        | some ref ↦ note_payout fails ref uid (record s {
          payouts =
              record { bank_account = account; amount = claim.invoice.amount; invoice_uid = uid }
              ∷ s.payouts;
        })
      ]
]

-- The purchase and the allowlist entry.
unfoldable pub unlock : (Query → Bool) → Claim → Desk → Desk
unlock fails claim s = record s {
  main = try_allow (fails Query.insert_allow) claim.invoice.video_id claim.buyer_username (
      try_purchase (fails Query.insert_purchase) claim.invoice.user_id claim.invoice.video_id
        s.main);
}

-- The part of the handler that writes.
unfoldable pub grant :
    Plugins → (Query → Bool) → Faults → String → PaymentResult → Claim → Desk → Desk
grant p fails later provider result claim s =
    let uid = result.invoice_id in
    let s1 = unlock fails claim (mark_paid fails result s) in
    let s2 = pay_affiliate fails later provider uid claim.invoice s1 in
    if provider == "xendit" && not (is_some claim.invoice.disburse_ref)
    then pay_creator p fails uid claim s2
    else s2

-- The whole handler, when no other request comes between its statements; Fiat/Webhook/Overtaken.antt
-- has two that overlap.
unfoldable pub handle_webhook :
    Plugins → (Query → Bool) → Faults → String → WebhookRequest → Desk → WebhookReply × Desk
handle_webhook p fails later provider body s = elim (accepted p fails provider body s) [
  | stopped r ↦ (rejected r, s)
  | done (result, claim) ↦ (granted result.invoice_id, grant p fails later provider result claim s)
]
