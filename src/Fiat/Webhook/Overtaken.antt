-- ===== src/Fiat/Webhook/Overtaken.antt =====
-- Two webhooks, the second of which is checked before the first has written.
use ppv_stream_rust.Prelude.{◌+◌, String, ◌≡◌, Bool, false, none, some, arith, ◌==◌, str_refl}
use ppv_stream_rust.Prelude.Attempt.{done, stopped}
use ppv_stream_rust.Text.{trim}
use ppv_stream_rust.Transaction.{Faults}
use ppv_stream_rust.Fiat.{Desk, Query, PaymentResult, WebhookRequest}
use ppv_stream_rust.Fiat.Webhook.{
  Plugins, Claim, mark_paid, unlock, pay_affiliate, pay_creator, accepted, grant,
}
use ppv_stream_rust.Fiat.Webhook.Rows.{count_payouts}

-- `handle_webhook` twice on the same body, where both read the tables before either writes; the
-- statements that fail are those of `fails` and `later`, then those of `fails'` and `later'`.
unfoldable pub overlapped :
    Plugins
    → (Query → Bool)
    → Faults
    → (Query → Bool)
    → Faults
    → String
    → WebhookRequest
    → Desk
    → Desk
overlapped p fails later fails' later' provider body s = elim (accepted p fails provider body s) [
  | stopped r ↦ s
  | done (result, claim) ↦ elim (accepted p fails' provider body s) [
    | stopped r ↦ grant p fails later provider result claim s
    | done (result', claim') ↦
        grant p fails' later' provider result' claim' (grant p fails later provider result claim s)
  ]
]

-- One payout more, whatever the row of the invoice says by then.
grant-pays :
    (p : Plugins) (fails : Query → Bool) (later : Faults) (result : PaymentResult) (claim : Claim)
    (s : Desk) (account ref : String)
    → claim.invoice.disburse_ref ≡ none
    → claim.creator_bank ≡ some account
    → (trim account == "") ≡ false
    → p.disburse account claim.invoice.amount result.invoice_id ≡ some ref
    → count_payouts result.invoice_id (grant p fails later "xendit" result claim s).payouts
      ≡ 1 + count_payouts result.invoice_id s.payouts
unfolding grant pay_creator pay_affiliate unlock mark_paid
grant-pays p fails later result claim s account ref open_ bank given pays =
    ground (arith, str_refl result.invoice_id)

-- Whatever other statements fail: if Xendit's webhook for an invoice that has no payout is accepted by
-- two requests that read the tables before either writes, the creator has a bank account, and Xendit
-- takes the payout, then the invoice is paid out twice.
pub overlapped_pays_out_twice :
    (p : Plugins) (fails fails' : Query → Bool) (later later' : Faults) (body : WebhookRequest)
    (s : Desk) (result : PaymentResult) (claim : Claim) (account ref : String)
    → accepted p fails "xendit" body s ≡ done (result, claim)
    → accepted p fails' "xendit" body s ≡ done (result, claim)
    → claim.invoice.disburse_ref ≡ none
    → claim.creator_bank ≡ some account
    → (trim account == "") ≡ false
    → p.disburse account claim.invoice.amount result.invoice_id ≡ some ref
    → count_payouts result.invoice_id
        (overlapped p fails later fails' later' "xendit" body s).payouts
      ≡ 2 + count_payouts result.invoice_id s.payouts
unfolding overlapped
overlapped_pays_out_twice p fails fails' later later' body s result claim account ref first second
      open_ bank given pays =
    let one = grant-pays p fails later result claim s account ref open_ bank given pays in
    let s' = grant p fails later "xendit" result claim s in
    let two = grant-pays p fails' later' result claim s' account ref open_ bank given pays in
    rw (first, second, overlapped) (omega (arith, one, two))
