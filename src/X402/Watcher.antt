-- ===== src/X402/Watcher.antt =====
-- src/services/x402_watcher.rs: what the watcher does at a `Paid` event, and the loop over the events of
-- a connection. The node that sends the events is a parameter: the list of what arrives.
pub mod First
use ppv_stream_rust.Prelude.{
  ℕ, String, Bool, true, false, Option, none, some, List, [], ◌∷◌, ◌==◌, if◌then◌else◌,
}
use ppv_stream_rust.Prelude.Attempt.{Attempt, done, stopped, ◌>>=◌, ◌>>◌, or_stop, stop_if}
use ppv_stream_rust.Tables.{Store, User, find_user, insert_pair}
use ppv_stream_rust.Wallet.Payment.{insert_purchase}
use ppv_stream_rust.X402.{InvoiceStatus, Invoice, Books, Query, update_invoice}

-- SELECT ... WHERE LOWER(invoice_uid_hash) = $1 LIMIT 1; `lower` is the database's LOWER.
unfoldable pub find_hash : (String → String) → String → List Invoice → Option Invoice
find_hash lower hash [] = none
find_hash lower hash (i ∷ is) =
    let rest = find_hash lower hash is in
    elim i.invoice_uid_hash [ none ↦ rest | some h ↦ if lower h == hash then some i else rest ]

abbrev pub mark_paid : String → Invoice → Invoice
mark_paid payer i = record i { status = InvoiceStatus.paid; payer_address = some payer }

-- A statement that stops the function where it fails, and leaves `s` as it was.
abbrev run : (Query → Bool) → Query → Books → Option Books → Attempt Books Books
run fails q s after = if fails q then stopped s else or_stop after s

abbrev with_main : Books → Option Store → Option Books
with_main s none = none
with_main s (some t) = some (record s { main = t })

-- The statements after the invoice has been found; each `?` ends the function, and what was written
-- before stays.
unfoldable pub grant_event :
    (Query → Bool) → String → String → Invoice → Books → Attempt Books Books
grant_event fails payer video_id i s = do
  s1 ←
      run fails Query.mark s
        (some (record s { invoices = update_invoice (mark_paid payer) i.id s.invoices }))
  stop_if (fails Query.select_name) s1
  u ← or_stop (find_user i.user_id s1.main.users) s1
  stop_if (u.username == "") s1
  s2 ←
      run fails Query.insert_purchase s1 (with_main s1 (insert_purchase i.user_id video_id s1.main))
  run fails Query.insert_allow s2 (
      some (record s2 {
        main = record s2.main { allowlist = insert_pair video_id u.username s2.main.allowlist };
      }))

abbrev outcome : Attempt Books Books → Books
outcome (done s) = s
outcome (stopped s) = s

-- The tables after the event; the error of the function is only logged.
unfoldable pub handle_paid_event :
    (String → String) → (Query → Bool) → String → String → String → Books → Books
handle_paid_event lower fails invoice_hash payer video_id s =
    if fails Query.select_invoice then s else elim (find_hash lower invoice_hash s.invoices) [
      | none ↦ s
      | some i ↦ outcome (grant_event fails payer video_id i s)
    ]

-- What the stream yields: an error, or an event with which statements fail while it is handled.
pub data Arrival : Type 0 where
  broken : Arrival
  paid_event : (Query → Bool) → String → String → String → Arrival

-- `watch_once`: an error of the stream ends the loop.
unfoldable pub watch_once : (String → String) → List Arrival → Books → Books
watch_once lower [] s = s
watch_once lower (Arrival.broken ∷ rest) s = s
watch_once lower (Arrival.paid_event fails hash payer video ∷ rest) s =
    watch_once lower rest (handle_paid_event lower fails hash payer video s)
