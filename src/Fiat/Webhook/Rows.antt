-- ===== src/Fiat/Webhook/Rows.antt =====
-- The rows of `fiat_invoices` and the payouts after `handle_webhook`.
use ppv_stream_rust.Prelude.{
  ℕ, ◌+◌, String, ◌≡◌, refl, ◌⊎◌, inl, inr, Bool, true, false, ◌&&◌, not, Option, none, some, List,
  [], ◌∷◌, arith, eq_iff, ◌||◌, str_refl, if◌then◌else◌, ◌==◌, Bool-cases, Option-cases, is_some,
  ◌∙◌,
}
use ppv_stream_rust.Transaction.{Faults}
use ppv_stream_rust.Fiat.{
  FiatInvoice, Payout, Desk, Query, PaymentResult, find_invoice, update_invoice, is_final,
}
use ppv_stream_rust.Fiat.Webhook.{
  Plugins, Claim, finalized, mark_paid, unlock, pay_affiliate, pay_creator, disbursed, grant,
}

abbrev pub updated : (FiatInvoice → FiatInvoice) → Bool → Option FiatInvoice → Option FiatInvoice
updated f hit none = none
updated f hit (some i) = some (if hit then f i else i)

-- The number of payouts for an invoice.
abbrev pub count_payouts : String → List Payout → ℕ
count_payouts uid [] = 0
count_payouts uid (p ∷ ps) = (if p.invoice_uid == uid then 1 else 0) + count_payouts uid ps

pub find_invoice-finalized :
    (uid uid' : String) (t : Option String) (is : List FiatInvoice)
    → find_invoice uid (update_invoice (finalized t) uid' is)
      ≡ updated (finalized t) (uid' == uid) (find_invoice uid is)
unfolding find_invoice update_invoice finalized
find_invoice-finalized uid uid' t [] = refl
find_invoice-finalized uid uid' t (i ∷ is) = ground (
  arith,
  eq_iff i.invoice_uid uid,
  eq_iff i.invoice_uid uid',
  eq_iff uid' uid,
  find_invoice-finalized uid uid' t is,
)

pub find_invoice-disbursed :
    (uid uid' ref : String) (is : List FiatInvoice)
    → find_invoice uid (update_invoice (disbursed ref) uid' is)
      ≡ updated (disbursed ref) (uid' == uid) (find_invoice uid is)
unfolding find_invoice update_invoice
find_invoice-disbursed uid uid' ref [] = refl
find_invoice-disbursed uid uid' ref (i ∷ is) = ground (
  arith,
  eq_iff i.invoice_uid uid,
  eq_iff i.invoice_uid uid',
  eq_iff uid' uid,
  find_invoice-disbursed uid uid' ref is,
)

-- The invoice that is found is final.
abbrev pub is_final_in : Option FiatInvoice → Bool
is_final_in none = false
is_final_in (some i) = is_final i

abbrev pub is_done : String → Desk → Bool
is_done uid s = is_final_in (find_invoice uid s.invoices)

module _ (p : Plugins) (fails : Query → Bool) (uid : String) (claim : Claim) (s : Desk) where
  -- The end of the handler pays at most one payout, for its own invoice, and ends no invoice.
  pub pay_creator-rows :
      (u : String)
      → (is_done u (pay_creator p fails uid claim s) ≡ is_done u s)
        × ((count_payouts u (pay_creator p fails uid claim s).payouts ≡ count_payouts u s.payouts)
            ⊎ ((uid ≡ u)
                × (count_payouts u (pay_creator p fails uid claim s).payouts
                    ≡ 1 + count_payouts u s.payouts)))
  unfolding pay_creator
  pay_creator-rows u = elim (Option-cases claim.creator_bank) [
    | inl missing ↦ (ground arith, inl (ground arith))
    | inr (account, has) ↦ elim (Option-cases (p.disburse account claim.invoice.amount uid)) [
      | inl declined ↦ (ground arith, inl (ground arith))
      | inr (ref, paid) ↦
          let rows = find_invoice-disbursed u uid ref s.invoices in
          (ground (arith, rows, has, paid), ground (arith, eq_iff uid u, has, paid))
    ]
  ]

pay_affiliate-rows :
    (fails : Query → Bool) (later : Faults) (provider uid : String) (i : FiatInvoice) (s : Desk)
    → ((pay_affiliate fails later provider uid i s).invoices ≡ s.invoices)
      × ((pay_affiliate fails later provider uid i s).payouts ≡ s.payouts)
unfolding pay_affiliate
pay_affiliate-rows fails later provider uid i s = (ground arith, ground arith)

-- The rows when the invoice is marked, the video unlocked and the affiliate paid.
abbrev before_payout : (Query → Bool) → Faults → String → PaymentResult → Claim → Desk → Desk
before_payout fails later provider result claim s =
    pay_affiliate fails later provider result.invoice_id claim.invoice
      (unlock fails claim (mark_paid fails result s))

module _ (fails : Query → Bool) (later : Faults) (provider : String) (result : PaymentResult)
    (claim : Claim) (s : Desk) where
  -- Of the rows after the update only the invoice's own is different, and it is final.
  is_done-after :
      (t : Desk) (u : String)
      → find_invoice result.invoice_id s.invoices ≡ some claim.invoice
      → t.invoices ≡ update_invoice (finalized result.transaction_id) result.invoice_id s.invoices
      → is_done u t ≡ is_done u s || result.invoice_id == u
  unfolding finalized
  is_done-after t u listed wrote =
      let other = find_invoice-finalized u result.invoice_id result.transaction_id s.invoices in
      elim (Option-cases (find_invoice u s.invoices)) [
        | inl missing ↦ ground (arith, other, missing, listed, eq_iff result.invoice_id u)
        | inr (i, e) ↦ ground (arith, other, e, eq_iff result.invoice_id u)
      ]

  pub before_payout-rows :
      (u : String)
      → fails Query.mark ≡ false
      → find_invoice result.invoice_id s.invoices ≡ some claim.invoice
      → let s' = before_payout fails later provider result claim s in
        (is_done result.invoice_id s' ≡ true)
        × (is_done u s' ≡ is_done u s || result.invoice_id == u)
        × (s'.payouts ≡ s.payouts)
  unfolding mark_paid unlock finalized
  before_payout-rows u marks listed =
      let s' = before_payout fails later provider result claim s in
      let t = unlock fails claim (mark_paid fails result s) in
      let (same, payouts) =
        pay_affiliate-rows fails later provider result.invoice_id claim.invoice t in
      let own =
        find_invoice-finalized result.invoice_id result.invoice_id result.transaction_id
          s.invoices in
      (
        ground (arith, same, own, str_refl result.invoice_id),
        is_done-after s' u listed (ground (arith, same)),
        ground (arith, payouts),
      )

  -- What the writing part of the handler does to the rows and the payouts, if the invoice is marked.
  pub grant-rows :
      (p : Plugins) (u : String)
      → fails Query.mark ≡ false
      → find_invoice result.invoice_id s.invoices ≡ some claim.invoice
      → let s' = grant p fails later provider result claim s in
        (is_done u s' ≡ is_done u s || result.invoice_id == u)
        × ((count_payouts u s'.payouts ≡ count_payouts u s.payouts)
            ⊎ ((result.invoice_id ≡ u)
                × (count_payouts u s'.payouts ≡ 1 + count_payouts u s.payouts)))
  unfolding grant pay_affiliate
  grant-rows p u marks listed =
      let t = before_payout fails later provider result claim s in
      let (own, rows, payouts) = before_payout-rows u marks listed in
      let (rows', paid) = pay_creator-rows p fails result.invoice_id claim t u in
      elim (Bool-cases (provider == "xendit" && not (is_some claim.invoice.disburse_ref))) [
        | inl pays ↦ rw pays (rows' ∙ rows, rw payouts at paid)
        | inr rests ↦ rw rests (rows, inl (rw payouts refl))
      ]
