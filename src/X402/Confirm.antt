-- ===== src/X402/Confirm.antt =====
-- src/handlers/pay.rs: `x402_confirm`.
pub mod Proof
pub mod Cases
pub mod Access
pub mod Rows
pub mod Partial
pub mod Progress
pub mod Overtaken
pub mod Succeeds
use Prim.Native.String
use ppv_stream_rust.Prelude.{
  ℕ, ◌+◌, ◌-◌, String, Bool, true, false, not, ◌&&◌, ◌||◌, Option, none, some, List, [], ◌∷◌, ◌==◌,
  or_else, if◌then◌else◌, ltb,
}
use ppv_stream_rust.Prelude.Int.{ℤ, pos}
use ppv_stream_rust.Prelude.Attempt.{Attempt, done, stopped, ◌>>=◌, ◌>>◌, or_stop, stop_if}
use ppv_stream_rust.Text.{to_ascii_lowercase}
use ppv_stream_rust.Tables.{Store}
use ppv_stream_rust.Transaction.{Faults}
use ppv_stream_rust.Commission.{process_affiliate_commission}
use ppv_stream_rust.Unlock.{try_purchase, name_of, try_allow}
use ppv_stream_rust.X402.{
  InvoiceStatus, is_paid, Invoice, Books, Query, find_invoice, update_invoice,
}
use ppv_stream_rust.X402.Chain.{World, Receipt, RpcAnswer, PaidEvent, scan}

pub data ConfirmError : Type 0 where
  invalid_params invoice_not_found rpc_not_set rpc_failed rpc_parse tx_failed : ConfirmError
  event_not_found mismatched_video : ConfirmError

-- An answer that writes nothing: an error, or that the invoice is paid, with `same_tx`.
pub data Refusal : Type 0 where
  failed : ConfirmError → Refusal
  replayed : Bool → Refusal

pub data ConfirmReply : Type 0 where
  refused : Refusal → ConfirmReply
  underpaid : ℕ → ConfirmReply
  confirmed : ConfirmReply

-- The transaction of the request is the one that paid the invoice, by `eq_ignore_ascii_case`.
abbrev pub same_tx : Invoice → String → Bool
same_tx i tx = elim i.tx_hash [
  | none ↦ false
  | some known ↦ to_ascii_lowercase known == to_ascii_lowercase tx
]

-- The receipt of a transaction, or the error of the request for it.
abbrev pub fetch_receipt : World → String → Attempt Refusal Receipt
fetch_receipt w tx = elim (w.receipt_of tx) [
  | RpcAnswer.rpc_failed ↦ stopped (failed ConfirmError.rpc_failed)
  | RpcAnswer.not_json ↦ stopped (failed ConfirmError.rpc_parse)
  | RpcAnswer.answered r ↦ done r
]

-- The event names a video, and it is not the invoice's.
abbrev pub names_other : Option String → String → Bool
names_other none video = false
names_other (some v) video = not (v == video)

abbrev pub event_amount : Option PaidEvent → Option ℕ
event_amount none = none
event_amount (some e) = e.amount_wei

abbrev pub event_video : Option PaidEvent → Option String
event_video none = none
event_video (some e) = e.video_id

-- What is verified before anything is written: the invoice and the amount that was paid.
unfoldable pub verified :
    World → (Query → Bool) → String → String → Books → Attempt Refusal (Invoice × ℕ)
verified w fails uid tx s = do
  stop_if (uid == "" || tx == "") (failed ConfirmError.invalid_params)
  stop_if (fails Query.select_invoice) (failed ConfirmError.invoice_not_found)
  i ← or_stop (find_invoice uid s.invoices) (failed ConfirmError.invoice_not_found)
  stop_if (is_paid i.status) (replayed (same_tx i tx))
  stop_if (w.rpc_url == "") (failed ConfirmError.rpc_not_set)
  r ← fetch_receipt w tx
  stop_if (not (or_else r.status "0x0" == "0x1")) (failed ConfirmError.tx_failed)
  let found = scan w (w.lower (or_else i.invoice_uid_hash "")) r.logs
  amount ← or_stop (event_amount found) (failed ConfirmError.event_not_found)
  stop_if (names_other (event_video found) i.video_id) (failed ConfirmError.mismatched_video)
  done (i, amount)

abbrev pub required_of : Invoice → ℕ
required_of i = or_else i.required_amount_wei 0

-- UPDATE x402_invoices SET status = $1, tx_hash = $2, paid_amount_wei = COALESCE(...) + $3
unfoldable pub marked : InvoiceStatus → String → ℕ → Invoice → Invoice
marked status tx amount j = record j {
  status = status;
  tx_hash = some tx;
  paid_amount_wei = some (or_else j.paid_amount_wei 0 + amount);
}

-- The result of the statement is not looked at.
unfoldable pub mark_invoice : (Query → Bool) → InvoiceStatus → String → ℕ → Invoice → Books → Books
mark_invoice fails status tx amount i s =
    if fails Query.mark
    then s
    else record s { invoices = update_invoice (marked status tx amount) i.id s.invoices }

-- The purchase and the allowlist entry of the buyer.
unfoldable pub unlock : (Query → Bool) → String → String → Store → Store
unlock fails user video s =
    let bought = try_purchase (fails Query.insert_purchase) user video s in
    let name = name_of (fails Query.select_name) user bought in
    if name == "" then bought else try_allow (fails Query.insert_allow) video name bought

-- The commission of the affiliate that the invoice names; its result is only logged.
unfoldable pub pay_affiliate : (Query → Bool) → Faults → String → Invoice → Books → Books
pay_affiliate fails later uid i s = elim (find_invoice uid s.invoices) [
  | none ↦ s
  | some row ↦
      let name = or_else row.affiliate_ref "" in
      if fails Query.select_ref || fails Query.select_extra || name == "" then s else record s {
        main =
            (process_affiliate_commission later i.video_id i.user_id row.creator_id row.price_cents
              name "x402" (some uid) s.main).1;
      }
]

-- The part of the handler that writes.
unfoldable pub settle_invoice :
    (Query → Bool) → Faults → String → String → Invoice → ℕ → Books → ConfirmReply × Books
settle_invoice fails later uid tx i amount s =
    if ltb amount (required_of i)
    then (
      underpaid (required_of i - amount),
      mark_invoice fails InvoiceStatus.underpaid tx amount i s,
    )
    else (let s1 = mark_invoice fails InvoiceStatus.paid tx amount i s in
        let s2 = record s1 { main = unlock fails i.user_id i.video_id s1.main } in
        (confirmed, pay_affiliate fails later uid i s2))

-- The whole handler, when no other request comes between its statements; X402/Confirm/Overtaken.antt
-- has `settle_invoice` on tables that have changed since the checks.
unfoldable pub x402_confirm :
    World → (Query → Bool) → Faults → String → String → Books → ConfirmReply × Books
x402_confirm w fails later uid tx s = elim (verified w fails uid tx s) [
  | stopped r ↦ (refused r, s)
  | done (i, amount) ↦ settle_invoice fails later uid tx i amount s
]
