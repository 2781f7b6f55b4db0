-- ===== src/X402/Confirm/Overtaken.antt =====
-- A confirmation whose checks another confirmation has overtaken.
use ppv_stream_rust.Prelude.{
  ◌-◌, ℕ, ◌<◌, String, ◌≡◌, refl, Bool, true, false, some, arith, ltb, nat_eq,
}
use ppv_stream_rust.Transaction.{Faults}
use ppv_stream_rust.X402.{InvoiceStatus, Invoice, Books, Query, find_invoice}
use ppv_stream_rust.X402.Confirm.{underpaid, required_of, marked, mark_invoice, settle_invoice}
use ppv_stream_rust.X402.Confirm.Rows.{find_invoice-mark}

-- A confirmation that has found an amount below what invoice `i` requires marks the row as underpaid,
-- whatever the row says by then, also that it is paid.
pub stale_confirmation_underpays :
    (fails : Query → Bool) (later : Faults) (uid tx : String) (i row : Invoice) (amount : ℕ)
    (s : Books)
    → fails Query.mark ≡ false
    → find_invoice uid s.invoices ≡ some row
    → row.id ≡ i.id
    → amount < required_of i
    → let (r, s') = settle_invoice fails later uid tx i amount s in
      (r ≡ underpaid (required_of i - amount))
      × (find_invoice uid s'.invoices ≡ some (marked InvoiceStatus.underpaid tx amount row))
unfolding settle_invoice mark_invoice
stale_confirmation_underpays fails later uid tx i row amount s marks listed same short =
    let less : ltb amount (required_of i) ≡ true = ground arith in
    let hit : nat_eq row.id i.id ≡ true = ground arith in
    let rows = find_invoice-mark uid InvoiceStatus.underpaid tx amount i.id s.invoices in
    rw (less, marks) (refl, ground (arith, rows))
