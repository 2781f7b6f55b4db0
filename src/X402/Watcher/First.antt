-- ===== src/X402/Watcher/First.antt =====
-- The watcher has handled the event of a payment before the buyer's `x402_confirm`.
use ppv_stream_rust.Prelude.{
  ℕ, String, ◌≡◌, refl, inl, inr, Bool, false, some, List, [], ◌∷◌, arith, eq_iff, Option-cases,
}
use ppv_stream_rust.Prelude.Attempt.{Attempt-cases}
use ppv_stream_rust.Tables.{find_user}
use ppv_stream_rust.Transaction.{Faults}
use ppv_stream_rust.Wallet.Payment.{insert_purchase}
use ppv_stream_rust.X402.{Invoice, Books, Query, find_invoice, update_invoice}
use ppv_stream_rust.X402.Chain.{World}
use ppv_stream_rust.X402.Confirm.{verified, x402_confirm}
use ppv_stream_rust.X402.Confirm.Proof.{verified-IsPaidOnChain}
use ppv_stream_rust.X402.Watcher.{find_hash, mark_paid, grant_event, outcome, handle_paid_event}

find_invoice-mark_paid :
    (uid payer : String) (id : ℕ) (is : List Invoice) {i : Invoice}
    → find_invoice uid is ≡ some i
    → i.id ≡ id
    → find_invoice uid (update_invoice (mark_paid payer) id is) ≡ some (mark_paid payer i)
unfolding find_invoice update_invoice
find_invoice-mark_paid uid payer id [] h same = cc
find_invoice-mark_paid uid payer id (x ∷ is) {i} h same =
    ground (arith, eq_iff x.invoice_uid uid, find_invoice-mark_paid uid payer id is {i = i})

-- Once the first statement has succeeded the invoice is marked, and no commission is written.
grant_event-marks :
    (fails : Query → Bool) (payer video : String) (i : Invoice) (s : Books)
    → fails Query.mark ≡ false
    → let s' = outcome (grant_event fails payer video i s) in
      (s'.invoices ≡ update_invoice (mark_paid payer) i.id s.invoices)
      × (s'.main.commissions ≡ s.main.commissions)
      × (s'.main.users ≡ s.main.users)
unfolding grant_event insert_purchase
grant_event-marks fails payer video i s marked =
    elim (Option-cases (find_user i.user_id s.main.users)) [
      | inl missing ↦ (ground arith, ground arith, ground arith)
      | inr (u, known) ↦ (ground arith, ground arith, ground arith)
    ]

-- If the watcher has found and marked an invoice, then a confirmation of it changes nothing any more,
-- whatever the chain shows and whatever statements fail: no commission is ever paid for it, and all
-- balances are as they were before the event.
pub watched_first_pays_no_commission :
    (lower : String → String) (w : World) (fails fails' : Query → Bool) (later : Faults)
    (hash payer video uid tx : String) (s : Books) (i : Invoice)
    → fails Query.select_invoice ≡ false
    → fails Query.mark ≡ false
    → find_hash lower hash s.invoices ≡ some i
    → find_invoice uid s.invoices ≡ some i
    → let watched = handle_paid_event lower fails hash payer video s in
      ((x402_confirm w fails' later uid tx watched).1 ≡ watched)
      × (watched.main.commissions ≡ s.main.commissions)
      × (watched.main.users ≡ s.main.users)
unfolding handle_paid_event x402_confirm
watched_first_pays_no_commission lower w fails fails' later hash payer video uid tx s i read marks
      found listed =
    let s' = outcome (grant_event fails payer video i s) in
    let (wrote, commissions, users) = grant_event-marks fails payer video i s marks in
    let row = find_invoice-mark_paid uid payer i.id s.invoices listed refl in
    let same : (x402_confirm w fails' later uid tx s').1 ≡ s' =
      elim (Attempt-cases (verified w fails' uid tx s')) [
        | inl (r, e) ↦ rw (e, x402_confirm) refl
        | inr ((j, amount), e) ↦
            let (at_uid, unpaid, shown) = verified-IsPaidOnChain w fails' uid tx s' e in
            absurd (ground (arith, at_uid, unpaid, wrote, row))
      ] in
    rw (read, found) (same, commissions, users)
