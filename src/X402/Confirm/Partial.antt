-- ===== src/X402/Confirm/Partial.antt =====
-- `x402_confirm` of payments that fall short, one after the other.
use ppv_stream_rust.Prelude.{
  ℕ, ◌<◌, String, ◌≡◌, refl, inl, inr, Bool, false, some, List, [], ◌∷◌, arith, ◌∙◌, if◌then◌else◌,
}
use ppv_stream_rust.Prelude.Attempt.{Attempt-cases}
use ppv_stream_rust.Transaction.{Faults}
use ppv_stream_rust.X402.{InvoiceStatus, is_paid, Invoice, Books, Query, find_invoice}
use ppv_stream_rust.X402.Chain.{World}
use ppv_stream_rust.X402.Confirm.{
  required_of, marked, mark_invoice, verified, settle_invoice, x402_confirm,
}
use ppv_stream_rust.X402.Confirm.Proof.{IsPaidOnChain, verified-IsPaidOnChain}
use ppv_stream_rust.X402.Confirm.Rows.{find_invoice-mark}

-- Confirmations of transactions for the same invoice, in order; which statements fail is up to each.
unfoldable pub confirm_each :
    World → Faults → String → List ((Query → Bool) × String) → Books → Books
confirm_each w later uid [] s = s
confirm_each w later uid ((fails, tx) ∷ txs) s =
    confirm_each w later uid txs (x402_confirm w fails later uid tx s).1

-- The invoice is not paid, and what identifies it and what it requires is as in `i`.
pub record IsOpen (uid : String) (i : Invoice) (s : Books) : Type 0 where
  pub row : Invoice
  pub listed : find_invoice uid s.invoices ≡ some row
  pub unpaid : is_paid row.status ≡ false
  pub same_hash : row.invoice_uid_hash ≡ i.invoice_uid_hash
  pub same_video : row.video_id ≡ i.video_id
  pub same_required : required_of row ≡ required_of i

-- No transaction of the chain pays what the invoice requires.
abbrev pub AllShort : World → Invoice → Type 0
AllShort w i =
    (tx : String) (amount : ℕ)
    → IsPaidOnChain w tx i.invoice_uid_hash i.video_id amount
    → amount < required_of i

-- The row after a payment that falls short, or as it was if it could not be written.
abbrev short_row : (Query → Bool) → String → ℕ → Invoice → Invoice
short_row fails tx amount row =
    if fails Query.mark then row else marked InvoiceStatus.underpaid tx amount row

short_settled :
    (fails : Query → Bool) (later : Faults) (uid tx : String) (row : Invoice) (amount : ℕ)
    (s : Books)
    → find_invoice uid s.invoices ≡ some row
    → amount < required_of row
    → let after = (settle_invoice fails later uid tx row amount s).1 in
      (find_invoice uid after.invoices ≡ some (short_row fails tx amount row))
      × (after.main ≡ s.main)
unfolding settle_invoice mark_invoice
short_settled fails later uid tx row amount s listed short =
    let written = find_invoice-mark uid InvoiceStatus.underpaid tx amount row.id s.invoices in
    (ground (arith, written), ground arith)

stays-IsOpen :
    (fails : Query → Bool) (uid tx : String) (i : Invoice) (amount : ℕ) (s s' : Books)
    (o : IsOpen uid i s)
    → find_invoice uid s'.invoices ≡ some (short_row fails tx amount o.row)
    → IsOpen uid i s'
unfolding marked
stays-IsOpen fails uid tx i amount s s' o listed = record {
  row = short_row fails tx amount o.row;
  listed = listed;
  unpaid = ground (arith, o.unpaid);
  same_hash = ground (arith, o.same_hash);
  same_video = ground (arith, o.same_video);
  same_required = ground (arith, o.same_required);
}

confirm_short :
    (w : World) (fails : Query → Bool) (later : Faults) (uid tx : String) (i : Invoice) (s : Books)
    → AllShort w i
    → IsOpen uid i s
    → IsOpen uid i (x402_confirm w fails later uid tx s).1
      × ((x402_confirm w fails later uid tx s).1.main ≡ s.main)
unfolding x402_confirm
confirm_short w fails later uid tx i s short o = elim (Attempt-cases (verified w fails uid tx s)) [
  | inl (r, e) ↦ rw (e, x402_confirm) (o, refl)
  | inr ((row, amount), e) ↦
      let (found, unpaid, shown) = verified-IsPaidOnChain w fails uid tx s e in
      let same : row ≡ o.row = ground (arith, o.listed) in
      let less : amount < required_of o.row =
        rw o.same_required (short tx amount (rw (← o.same_hash, ← o.same_video, ← same) shown)) in
      let (listed, kept) = short_settled fails later uid tx o.row amount s o.listed less in
      rw (e, x402_confirm, same)
        (
          stays-IsOpen fails uid tx i amount s (settle_invoice fails later uid tx o.row amount s).1
              o listed,
          kept,
        )
]

each_short :
    (w : World) (later : Faults) (uid : String) (i : Invoice) (txs : List ((Query → Bool) × String))
    (s : Books)
    → AllShort w i
    → IsOpen uid i s
    → IsOpen uid i (confirm_each w later uid txs s)
      × ((confirm_each w later uid txs s).main ≡ s.main)
unfolding confirm_each
each_short w later uid i [] s short o = (o, refl)
each_short w later uid i ((fails, tx) ∷ txs) s short o =
    let s' = (x402_confirm w fails later uid tx s).1 in
    let (o', kept) = confirm_short w fails later uid tx i s short o in
    let (open_after, kept_after) = each_short w later uid i txs s' short o' in
    (open_after, kept_after ∙ kept)

-- If no transaction alone pays what an unpaid invoice requires, then no confirmations of transactions,
-- however many and however much they pay together, make the invoice paid, and none of them changes
-- purchases, the allowlist or balances.
pub short_payments_never_unlock :
    (w : World) (later : Faults) (uid : String) (i : Invoice) (txs : List ((Query → Bool) × String))
    (s : Books)
    → find_invoice uid s.invoices ≡ some i
    → is_paid i.status ≡ false
    → AllShort w i
    → IsOpen uid i (confirm_each w later uid txs s)
      × ((confirm_each w later uid txs s).main ≡ s.main)
short_payments_never_unlock w later uid i txs s listed unpaid short =
    each_short w later uid i txs s short (record {
      row = i;
      listed = listed;
      unpaid = unpaid;
      same_hash = refl;
      same_video = refl;
      same_required = refl;
    })
