-- ===== src/Fiat/Webhook/Granted.antt =====
-- A webhook that is answered as granted: what was reported, and what the buyer has from it.
use ppv_stream_rust.Prelude.{
  String, ◌≡◌, refl, inl, inr, Bool, true, false, Option, some, arith, ◌==◌, Bool-cases,
  Option-cases, ◌∙◌, ◌||◌, ◌&&◌, not, is_some,
}
use ppv_stream_rust.Prelude.Int.{ℤ}
use ppv_stream_rust.Prelude.Attempt.{Attempt-cases}
use ppv_stream_rust.Tables.{User, find_user, has_pair}
use ppv_stream_rust.Transaction.{Faults}
use ppv_stream_rust.Access.{user_has_view_access}
use ppv_stream_rust.Access.Cases.{answered}
use ppv_stream_rust.Access.Kept.{kept_rights}
use ppv_stream_rust.Unlock.{try_purchase, try_allow}
use ppv_stream_rust.Unlock.Rights.{try_allow-rights}
use ppv_stream_rust.Commission.Keeps.{
  KeepsRights, KeepsRights-refl, process_affiliate_commission-KeepsRights,
}
use ppv_stream_rust.Fiat.{
  FiatInvoice, Desk, Query, PaymentResult, is_paid, WebhookRequest, find_invoice, is_final,
}
use ppv_stream_rust.Fiat.Webhook.{
  Plugins, Claim, granted, find_claim, accepted, grant, handle_webhook, mark_paid, unlock, ref_of,
  pay_affiliate, pay_creator,
}
use ppv_stream_rust.Fiat.Webhook.Once.{accepted-open, claim-listed}

-- Two plugins that tell the same story but for the amount and the currency that were paid.
pub record SameButAmount (p p' : Plugins) (provider : String) (body : WebhookRequest) : Type 0 where
  pub confirm : WebhookRequest → Option PaymentResult
  pub confirm' : WebhookRequest → Option PaymentResult
  pub result : PaymentResult
  pub amount : ℤ
  pub currency : String
  pub plugin : p.confirm_payment provider ≡ some confirm
  pub plugin' : p'.confirm_payment provider ≡ some confirm'
  pub reported : confirm body ≡ some result
  pub reported' :
      confirm' body ≡ some (record result { paid_amount_cents = amount; currency = currency })
  pub payouts : p.disburse ≡ p'.disburse

grant_same :
    (p p' : Plugins) (fails : Query → Bool) (later : Faults) (provider currency : String)
    (amount : ℤ) (result : PaymentResult) (claim : Claim) (s : Desk)
    → p.disburse ≡ p'.disburse
    → grant p fails later provider result claim s
      ≡ grant p' fails later provider
          (record result { paid_amount_cents = amount; currency = currency })
          claim
          s
unfolding grant mark_paid pay_creator
grant_same p p' fails later provider currency amount result claim s same = rw same refl

-- The amount and the currency that a provider reports as paid make no difference: a webhook is answered
-- and handled in the same way whatever they are.
pub handle_webhook_ignores_amount :
    (p p' : Plugins) (fails : Query → Bool) (later : Faults) (provider : String)
    (body : WebhookRequest) (s : Desk)
    → SameButAmount p p' provider body
    → handle_webhook p fails later provider body s ≡ handle_webhook p' fails later provider body s
unfolding handle_webhook accepted
handle_webhook_ignores_amount p p' fails later provider body s same =
    let r = same.result in
    let claims = find_claim r.invoice_id s in
    elim (Option-cases claims) [
      | inl missing ↦
          ground (arith, missing, same.plugin, same.plugin', same.reported, same.reported')
      | inr (claim, e) ↦ ground (
        arith,
        e,
        same.plugin,
        same.plugin',
        same.reported,
        same.reported',
        grant_same p p' fails later provider same.currency same.amount r claim s same.payouts,
      )
    ]

claim-buyer :
    (uid : String) (s : Desk) {c : Claim}
    → find_claim uid s ≡ some c
    → (u : User) × (find_user c.invoice.user_id s.main.users ≡ some u)
      × (u.username ≡ c.buyer_username)
unfolding find_claim
claim-buyer uid s {c} h = elim (Option-cases (find_invoice uid s.invoices)) [
  | inl missing ↦ absurd (ground arith)
  | inr (i, e) ↦ elim (Option-cases (find_user i.user_id s.main.users)) [
    | inl nobody ↦ absurd (ground arith)
    | inr (u, known) ↦ let made : c.invoice ≡ i = ground arith in (u, rw made known, ground arith)
  ]
]

pay_affiliate-KeepsRights :
    (fails : Query → Bool) (later : Faults) (provider uid : String) (i : FiatInvoice) (s : Desk)
    → KeepsRights s.main (pay_affiliate fails later provider uid i s).main
unfolding pay_affiliate
pay_affiliate-KeepsRights fails later provider uid i s =
    elim (Bool-cases (fails Query.select_ref || ref_of (find_invoice uid s.invoices) == "")) [
      | inl skips ↦ rw (skips, pay_affiliate) (KeepsRights-refl s.main)
      | inr pays ↦
          rw (pays, pay_affiliate)
            (process_affiliate_commission-KeepsRights later i.video_id i.user_id i.creator_id
              i.amount (ref_of (find_invoice uid s.invoices)) provider (some uid) s.main)
    ]

pay_creator-rights :
    (p : Plugins) (fails : Query → Bool) (uid : String) (claim : Claim) (s : Desk)
    → ((pay_creator p fails uid claim s).main.users ≡ s.main.users)
      × ((pay_creator p fails uid claim s).main.allowlist ≡ s.main.allowlist)
unfolding pay_creator
pay_creator-rights p fails uid claim s = elim (Option-cases claim.creator_bank) [
  | inl missing ↦ (ground arith, ground arith)
  | inr (account, has) ↦ elim (Option-cases (p.disburse account claim.invoice.amount uid)) [
    | inl declined ↦ (ground arith, ground arith)
    | inr (ref, paid) ↦ (ground arith, ground arith)
  ]
]

mark_paid-users :
    (fails : Query → Bool) (result : PaymentResult) (s : Desk)
    → (mark_paid fails result s).main.users ≡ s.main.users
unfolding mark_paid
mark_paid-users fails result s = ground arith

-- The buyer of a claim may watch once it has been granted.
grant-unlocks :
    (p : Plugins) (fails : Query → Bool) (later : Faults) (provider : String)
    (result : PaymentResult) (claim : Claim) (s : Desk)
    → find_claim result.invoice_id s ≡ some claim
    → fails Query.insert_allow ≡ false
    → user_has_view_access answered claim.invoice.video_id claim.invoice.user_id
        (grant p fails later provider result claim s).main
      ≡ true
unfolding grant unlock
grant-unlocks p fails later provider result claim s claimed allows =
    let video = claim.invoice.video_id in
    let user = claim.invoice.user_id in
    let uid = result.invoice_id in
    let (u, known, named) = claim-buyer uid s claimed in
    let m = mark_paid fails result s in
    let people : m.main.users ≡ s.main.users = mark_paid-users fails result s in
    let (users, allowed) =
      try_allow-rights (fails Query.insert_purchase) user video claim.buyer_username m.main in
    let t : Desk = record m {
      main =
          try_allow false video claim.buyer_username
            (try_purchase (fails Query.insert_purchase) user video m.main);
    } in
    let s2 = pay_affiliate fails later provider uid claim.invoice t in
    let k = pay_affiliate-KeepsRights fails later provider uid claim.invoice t in
    let (same_users, same_list) = pay_creator-rights p fails uid claim s2 in
    let still : find_user user t.main.users ≡ some u = rw (users, people) known in
    let listed : has_pair video u.username t.main.allowlist ≡ true = rw named allowed in
    rw allows
      (elim (Bool-cases (provider == "xendit" && not (is_some claim.invoice.disburse_ref))) [
        | inl pays ↦ rw pays (
            kept_rights video user t.main (pay_creator p fails uid claim s2).main u
              (λ j. rw same_users (k.names j)) (same_list ∙ k.allowlist) still listed)
        | inr rests ↦
            rw rests (kept_rights video user t.main s2.main u k.names k.allowlist still listed)
      ])

-- If a webhook is answered as granted and the insertion into the allowlist does not fail, then a plugin has reported the invoice as paid, it was listed and not final,
-- and its buyer may watch its video afterwards, whatever other statements fail.
pub handle_webhook_grants :
    (p : Plugins) (fails : Query → Bool) (later : Faults) (provider : String)
    (body : WebhookRequest) (s : Desk) (uid : String) (i : FiatInvoice)
    → (handle_webhook p fails later provider body s).0 ≡ granted uid
    → find_invoice uid s.invoices ≡ some i
    → fails Query.insert_allow ≡ false
    → (confirm : WebhookRequest → Option PaymentResult) × (result : PaymentResult)
      × (p.confirm_payment provider ≡ some confirm)
      × (confirm body ≡ some result)
      × (is_paid result.status ≡ true)
      × (result.invoice_id ≡ uid)
      × (is_final i ≡ false)
      × (user_has_view_access answered i.video_id i.user_id
            (handle_webhook p fails later provider body s).1.main
          ≡ true)
unfolding handle_webhook
handle_webhook_grants p fails later provider body s uid i won listed allows =
    elim (Attempt-cases (accepted p fails provider body s)) [
      | inl (r, e) ↦ absurd (ground arith)
      | inr ((result, claim), e) ↦
          let (confirm, plugin, reported, paid, claimed, unfinished) =
            accepted-open p fails provider body s e in
          let same_uid : result.invoice_id ≡ uid = ground arith in
          let found = claim-listed result.invoice_id s claimed in
          let same : claim.invoice ≡ i = ground (arith, found) in
          let watches = grant-unlocks p fails later provider result claim s claimed allows in
          (
            confirm,
            result,
            plugin,
            reported,
            paid,
            same_uid,
            rw (← same) unfinished,
            rw (e, handle_webhook, ← same) watches,
          )
    ]
