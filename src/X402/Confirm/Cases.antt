-- ===== src/X402/Confirm/Cases.antt =====
-- `x402_confirm`: its answers, and what stands behind each.
use ppv_stream_rust.Prelude.{
  ℕ, ◌+◌, ◌-◌, ◌≤◌, ◌<◌, String, ◌≡◌, ◌⊎◌, inl, inr, Bool, false, some, arith, ltb, Bool-cases,
}
use ppv_stream_rust.Prelude.Attempt.{Attempt-cases}
use ppv_stream_rust.Transaction.{Faults}
use ppv_stream_rust.X402.{is_paid, Invoice, Books, Query, find_invoice}
use ppv_stream_rust.X402.Chain.{World}
use ppv_stream_rust.X402.Confirm.{
  Refusal, refused, underpaid, confirmed, required_of, verified, mark_invoice, settle_invoice,
  x402_confirm,
}
use ppv_stream_rust.X402.Confirm.Proof.{IsPaidOnChain, verified-IsPaidOnChain}

-- Whatever statements fail: an answer with an error, or that the invoice was paid before, changes
-- nothing. If the payment falls short, the chain shows a `Paid` event of the contract for this invoice
-- and its video in a transaction that succeeded, the answer is what is missing of the required amount,
-- and neither purchases nor balances change. If the payment is confirmed, the chain shows such an event
-- with at least the required amount, and the invoice was not paid before.
pub x402_confirm_cases :
    (w : World) (fails : Query → Bool) (later : Faults) (uid tx : String) (s : Books)
    → let (r, s') = x402_confirm w fails later uid tx s in
      ((e : Refusal) × (r ≡ refused e) × (s' ≡ s))
      ⊎ ((i : Invoice) × (amount : ℕ) × (missing : ℕ) × (r ≡ underpaid missing)
          × (find_invoice uid s.invoices ≡ some i)
          × IsPaidOnChain w tx i.invoice_uid_hash i.video_id amount
          × (amount < required_of i)
          × (missing + amount ≡ required_of i)
          × (s'.main ≡ s.main))
      ⊎ ((i : Invoice) × (amount : ℕ) × (r ≡ confirmed)
          × (find_invoice uid s.invoices ≡ some i)
          × (is_paid i.status ≡ false)
          × IsPaidOnChain w tx i.invoice_uid_hash i.video_id amount
          × (required_of i ≤ amount))
unfolding x402_confirm settle_invoice mark_invoice
x402_confirm_cases w fails later uid tx s = elim (Attempt-cases (verified w fails uid tx s)) [
  | inl (r, e) ↦ inl (r, rw (e, x402_confirm), rw (e, x402_confirm))
  | inr ((i, amount), e) ↦
      let (listed, unpaid, shown) = verified-IsPaidOnChain w fails uid tx s e in
      elim (Bool-cases (ltb amount (required_of i))) [
        | inl short ↦ inr (
            inl (
              i,
              amount,
              required_of i - amount,
              ground arith,
              listed,
              shown,
              ground arith,
              ground arith,
              ground arith,
            ))
        | inr enough ↦ inr (inr (i, amount, ground arith, listed, unpaid, shown, ground arith))
      ]
]
