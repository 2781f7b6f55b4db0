-- ===== src/X402/Confirm/Rows.antt =====
-- The rows of `x402_invoices` after `x402_confirm` has marked one.
use ppv_stream_rust.Prelude.{
  ℕ, String, ◌≡◌, refl, ◌⊎◌, inl, inr, Bool, Option, none, some, List, [], ◌∷◌, arith, eq_iff,
  if◌then◌else◌, nat_eq, ltb, Bool-cases,
}
use ppv_stream_rust.Transaction.{Faults}
use ppv_stream_rust.X402.{InvoiceStatus, Invoice, Books, Query, find_invoice, update_invoice}
use ppv_stream_rust.X402.Confirm.{required_of, marked, mark_invoice, pay_affiliate, settle_invoice}

abbrev pub with_row : (Invoice → Invoice) → ℕ → Option Invoice → Option Invoice
with_row f id none = none
with_row f id (some i) = some (if nat_eq i.id id then f i else i)

pub find_invoice-mark :
    (uid : String) (status : InvoiceStatus) (tx : String) (amount : ℕ) (id : ℕ) (is : List Invoice)
    → find_invoice uid (update_invoice (marked status tx amount) id is)
      ≡ with_row (marked status tx amount) id (find_invoice uid is)
unfolding find_invoice update_invoice marked
find_invoice-mark uid status tx amount id [] = refl
find_invoice-mark uid status tx amount id (i ∷ is) =
    ground (arith, eq_iff i.invoice_uid uid, find_invoice-mark uid status tx amount id is)

pub find_invoice-uid :
    (uid : String) (is : List Invoice) {i : Invoice}
    → find_invoice uid is ≡ some i
    → i.invoice_uid ≡ uid
unfolding find_invoice
find_invoice-uid uid [] h = cc
find_invoice-uid uid (x ∷ is) {i} h =
    ground (arith, eq_iff x.invoice_uid uid, find_invoice-uid uid is {i = i})

-- The status that a payment of `amount` gives invoice `i`.
abbrev pub status_for : Invoice → ℕ → InvoiceStatus
status_for i amount =
    if ltb amount (required_of i) then InvoiceStatus.underpaid else InvoiceStatus.paid

-- What is settled marks the invoice, unless the statement fails.
pub settle_invoice-invoices :
    (fails : Query → Bool) (later : Faults) (uid tx : String) (i : Invoice) (amount : ℕ) (s : Books)
    → ((settle_invoice fails later uid tx i amount s).1.invoices ≡ s.invoices)
      ⊎ ((settle_invoice fails later uid tx i amount s).1.invoices
          ≡ update_invoice (marked (status_for i amount) tx amount) i.id s.invoices)
unfolding settle_invoice mark_invoice pay_affiliate
settle_invoice-invoices fails later uid tx i amount s = elim (Bool-cases (fails Query.mark)) [
  | inl lost ↦ inl (ground arith)
  | inr written ↦ inr (ground arith)
]
