-- ===== src/Fiat/Webhook/Once.antt =====
-- Webhooks that arrive again and again.
use ppv_stream_rust.Prelude.{
  ◌≤◌, String, ◌≡◌, ◌⊎◌, inl, inr, Bool, true, false, Option, some, List, [], ◌∷◌, arith, eq_iff,
  Option-cases, All,
}
use ppv_stream_rust.Prelude.Attempt.{done, Attempt-cases}
use ppv_stream_rust.Tables.{find_user}
use ppv_stream_rust.Transaction.{Faults}
use ppv_stream_rust.Fiat.{
  Desk, Query, PaymentResult, is_paid, WebhookRequest, find_invoice, is_final,
}
use ppv_stream_rust.Fiat.Webhook.{Plugins, Claim, find_claim, accepted, handle_webhook}
use ppv_stream_rust.Fiat.Webhook.Rows.{count_payouts, is_done, grant-rows}

pub claim-listed :
    (uid : String) (s : Desk) {c : Claim}
    → find_claim uid s ≡ some c
    → find_invoice uid s.invoices ≡ some c.invoice
unfolding find_claim
claim-listed uid s {c} h = elim (Option-cases (find_invoice uid s.invoices)) [
  | inl missing ↦ absurd (ground arith)
  | inr (i, e) ↦ elim (Option-cases (find_user i.user_id s.main.users)) [
    | inl nobody ↦ absurd (ground arith)
    | inr (buyer, known) ↦ ground arith
  ]
]

-- A webhook that is accepted reports a payment of an invoice that is listed and not final.
pub accepted-open :
    (p : Plugins) (fails : Query → Bool) (provider : String) (body : WebhookRequest) (s : Desk)
    {result : PaymentResult} {claim : Claim}
    → accepted p fails provider body s ≡ done (result, claim)
    → (confirm : WebhookRequest → Option PaymentResult) × (p.confirm_payment provider
        ≡ some confirm)
      × (confirm body ≡ some result)
      × (is_paid result.status ≡ true)
      × (find_claim result.invoice_id s ≡ some claim)
      × (is_final claim.invoice ≡ false)
unfolding accepted
accepted-open p fails provider body s {result} {claim} h =
    elim (Option-cases (p.confirm_payment provider)) [
      | inl unknown ↦ absurd (ground arith)
      | inr (confirm, e) ↦ elim (Option-cases (confirm body)) [
        | inl refused ↦ absurd (ground arith)
        | inr (r, f) ↦ elim (Option-cases (find_claim r.invoice_id s)) [
          | inl missing ↦ absurd (ground arith)
          | inr (c, g) ↦
              let same : r ≡ result = ground arith in
              (confirm, e, ground arith, ground arith, ground arith, ground arith)
        ]
      ]
    ]

-- An invoice has been paid out at most once, and not before it was final.
pub record IsPaidOutOnce (u : String) (s : Desk) : Type 0 where
  pub once : count_payouts u s.payouts ≤ 1
  pub after : (is_done u s ≡ true) ⊎ (count_payouts u s.payouts ≡ 0)

pub record Delivery : Type 0 where
  pub plugins : Plugins
  pub fails : Query → Bool
  pub later : Faults
  pub provider : String
  pub body : WebhookRequest

unfoldable pub deliver_all : List Delivery → Desk → Desk
deliver_all [] s = s
deliver_all (d ∷ ds) s =
    deliver_all ds (handle_webhook d.plugins d.fails d.later d.provider d.body s).1

webhook-IsPaidOutOnce :
    (d : Delivery) (u : String) (s : Desk)
    → d.fails Query.mark ≡ false
    → IsPaidOutOnce u s
    → IsPaidOutOnce u (handle_webhook d.plugins d.fails d.later d.provider d.body s).1
unfolding handle_webhook
webhook-IsPaidOutOnce d u s marks o =
    elim (Attempt-cases (accepted d.plugins d.fails d.provider d.body s)) [
      | inl (r, e) ↦ rw (e, handle_webhook) o
      | inr ((result, claim), e) ↦
          let (confirm, plugin, reported, paid, claimed, unfinished) =
            accepted-open d.plugins d.fails d.provider d.body s e in
          let listed = claim-listed result.invoice_id s claimed in
          let rows =
            grant-rows d.fails d.later d.provider result claim s d.plugins u marks listed in
          rw (e, handle_webhook)
            (record {
              once = ground (arith, rows, o.once, o.after, listed, unfinished);
              after =
                  ground
                    (arith, rows, o.once, o.after, listed, unfinished, eq_iff result.invoice_id u);
            })
    ]

-- Whatever webhooks arrive, of whatever providers and in whatever order, each of them handled to its
-- end before the next: if the statement that marks an invoice as paid does not fail in any of them, and
-- the invoice has been paid out at most once, and not before it was final, then that is so afterwards.
pub deliver_all-IsPaidOutOnce :
    (ds : List Delivery) (u : String) (s : Desk)
    → All (λ (d : Delivery). d.fails Query.mark ≡ false) ds
    → IsPaidOutOnce u s
    → IsPaidOutOnce u (deliver_all ds s)
unfolding deliver_all
deliver_all-IsPaidOutOnce [] u s marks o = o
deliver_all-IsPaidOutOnce (d ∷ ds) u s marks o =
    deliver_all-IsPaidOutOnce ds u (handle_webhook d.plugins d.fails d.later d.provider d.body s).1
      marks.1 (webhook-IsPaidOutOnce d u s marks.0 o)
