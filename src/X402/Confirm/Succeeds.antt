-- ===== src/X402/Confirm/Succeeds.antt =====
-- `x402_confirm` where the chain shows what the invoice requires.
use ppv_stream_rust.Prelude.{
  ℕ, ◌≤◌, String, ◌≡◌, refl, ◌≢◌, Bool, true, false, Option, some, List, [], ◌∷◌, ◌++◌, arith,
  or_else, All, eq_iff, ◌==◌, str_refl,
}
use ppv_stream_rust.Prelude.Attempt.{done}
use ppv_stream_rust.Transaction.{Faults}
use ppv_stream_rust.X402.{is_paid, Invoice, Books, Query, find_invoice}
use ppv_stream_rust.X402.Chain.{World, Log, Receipt, RpcAnswer, PaidEvent, is_paid_log, scan}
use ppv_stream_rust.X402.Confirm.{
  required_of, fetch_receipt, verified, confirmed, settle_invoice, x402_confirm,
}
use ppv_stream_rust.X402.Confirm.Access.{x402_confirm-eq_settle_invoice}

pub scan-first :
    (w : World) (topic : String) (pre post : List Log) (l : Log) (e : PaidEvent)
    → All (λ x. is_paid_log w topic x ≡ false) pre
    → is_paid_log w topic l ≡ true
    → w.parse_log l.topics (or_else l.data_hex "") ≡ some e
    → scan w topic (pre ++ l ∷ post) ≡ some e
unfolding scan
scan-first w topic [] post l e none_before passes parsed = ground arith
scan-first w topic (x ∷ pre) post l e none_before passes parsed =
    ground (arith, scan-first w topic pre post l e none_before.1 passes parsed)

-- What a client shows for an invoice with this hash and video: a transaction that succeeded and whose
-- first `Paid` event of the contract for the invoice is of `amount`.
pub record Evidence (w : World) (tx : String) (hash : Option String) (video : String) (amount : ℕ)
    : Type 0 where
  pub reachable : w.rpc_url ≢ ""
  pub before : List Log
  pub after : List Log
  pub log : Log
  pub receipt : Receipt
  pub fetched : w.receipt_of tx ≡ RpcAnswer.answered receipt
  pub status_ok : receipt.status ≡ some "0x1"
  pub logs : receipt.logs ≡ before ++ log ∷ after
  pub others : All (λ x. is_paid_log w (w.lower (or_else hash "")) x ≡ false) before
  pub passes : is_paid_log w (w.lower (or_else hash "")) log ≡ true
  pub decoded :
      w.parse_log log.topics (or_else log.data_hex "")
      ≡ some (record { amount_wei = some amount; video_id = some video })

verified-done :
    (w : World) (fails : Query → Bool) (uid tx : String) (s : Books) (i : Invoice) (amount : ℕ)
    → uid ≢ ""
    → tx ≢ ""
    → fails Query.select_invoice ≡ false
    → find_invoice uid s.invoices ≡ some i
    → is_paid i.status ≡ false
    → Evidence w tx i.invoice_uid_hash i.video_id amount
    → verified w fails uid tx s ≡ done (i, amount)
unfolding verified
verified-done w fails uid tx s i amount named sent read listed unpaid v =
    let topic = w.lower (or_else i.invoice_uid_hash "") in
    let seen : scan w topic v.receipt.logs
        ≡ some (record { amount_wei = some amount; video_id = some i.video_id }) =
      rw v.logs (scan-first w topic v.before v.after v.log _ v.others v.passes v.decoded) in
    let has_uid : (uid == "") ≡ false = ground (arith, eq_iff uid "") in
    let has_tx : (tx == "") ≡ false = ground (arith, eq_iff tx "") in
    let has_rpc : (w.rpc_url == "") ≡ false = ground (arith, eq_iff w.rpc_url "", v.reachable) in
    let fetched : fetch_receipt w tx ≡ done v.receipt = ground (arith, v.fetched) in
    rw (has_uid, has_tx, read, listed, unpaid, has_rpc, fetched, v.status_ok, seen)
      (rw (str_refl i.video_id) refl)

-- An invoice that is not paid is confirmed, whatever other statements fail, by a transaction that shows
-- at least what the invoice requires.
pub x402_confirm_succeeds :
    (w : World) (fails : Query → Bool) (later : Faults) (uid tx : String) (s : Books) (i : Invoice)
    (amount : ℕ)
    → uid ≢ ""
    → tx ≢ ""
    → fails Query.select_invoice ≡ false
    → find_invoice uid s.invoices ≡ some i
    → is_paid i.status ≡ false
    → Evidence w tx i.invoice_uid_hash i.video_id amount
    → required_of i ≤ amount
    → (x402_confirm w fails later uid tx s).0 ≡ confirmed
unfolding settle_invoice
x402_confirm_succeeds w fails later uid tx s i amount named sent read listed unpaid v enough =
    let checked = verified-done w fails uid tx s i amount named sent read listed unpaid v in
    rw (x402_confirm-eq_settle_invoice w fails later uid tx s i amount checked) (ground arith)
