-- ===== src/X402/Rounds.antt =====
-- `x402_start`, a payment on the chain, and `x402_confirm`.
use ppv_stream_rust.Prelude.{ℕ, ◌≤◌, String, ◌≡◌, refl, ◌≢◌, Bool, true, false, some, none, arith}
use ppv_stream_rust.Tables.{User, find_user}
use ppv_stream_rust.Transaction.{Faults}
use ppv_stream_rust.Wallet.{Session}
use ppv_stream_rust.Access.{user_has_view_access}
use ppv_stream_rust.Access.Cases.{answered}
use ppv_stream_rust.X402.{is_paid, Books, Query, find_invoice}
use ppv_stream_rust.X402.Chain.{World}
use ppv_stream_rust.X402.Start.{x402_start}
use ppv_stream_rust.X402.Quote.{Signer, StartPayReq, StartPayResp, started}
use ppv_stream_rust.X402.Start.Stored.{x402_start_stores}
use ppv_stream_rust.X402.Confirm.{required_of, confirmed, x402_confirm}
use ppv_stream_rust.X402.Confirm.Access.{x402_confirm_unlocks}
use ppv_stream_rust.X402.Confirm.Succeeds.{Evidence, x402_confirm_succeeds}

-- A buyer with a name whom `x402_start` answers with a signature, whose invoice is new and stored, and
-- who pays at least the answered amount in a transaction with a `Paid` event for the hash and the video
-- of that invoice, is confirmed by `x402_confirm` and may then watch the video, if in the confirmation
-- the queries for the invoice and the name and the insertion into the allowlist do not fail.
pub x402_start-confirm_unlocks :
    (env : Signer) (w : World) (fails fails' : Query → Bool) (later : Faults) (session : Session)
    (body : StartPayReq) (s : Books) (resp : StartPayResp) (uid tx : String) (admin : Bool)
    (u : User) (amount : ℕ)
    → (x402_start env fails session body s).0 ≡ started resp
    → session ≡ some (uid, admin)
    → find_user uid s.main.users ≡ some u
    → u.username ≢ ""
    → fails Query.insert_invoice ≡ false
    → find_invoice env.invoice_uid s.invoices ≡ none
    → env.invoice_uid ≢ ""
    → tx ≢ ""
    → fails' Query.select_invoice ≡ false
    → fails' Query.select_name ≡ false
    → fails' Query.insert_allow ≡ false
    → Evidence w tx (some (env.keccak env.invoice_uid)) body.video_id amount
    → resp.min_amount_wei ≤ amount
    → let (r, s') =
        x402_confirm w fails' later env.invoice_uid tx (x402_start env fails session body s).1 in
      (r ≡ confirmed) × (user_has_view_access answered body.video_id uid s'.main ≡ true)
x402_start-confirm_unlocks env w fails fails' later session body s resp uid tx admin u amount won
      who found has_name wrote fresh named sent read reads allows shown enough =
    let s1 = (x402_start env fails session body s).1 in
    let (q, i, made, listed, matches, least, signs, kept) =
      x402_start_stores env fails session body s resp uid admin won who (rw found refl) wrote
        fresh in
    let buyer : i.user_id ≡ uid = ground (arith, matches.buyer, made.logged_in) in
    let known : find_user i.user_id s1.main.users ≡ some u = rw (kept, buyer) found in
    let proof : Evidence w tx i.invoice_uid_hash i.video_id amount =
      rw (matches.hash, matches.video) shown in
    let unpaid : is_paid i.status ≡ false = rw (matches.pending) refl in
    let covers : required_of i ≤ amount = rw (matches.required, ← least) enough in
    let paid =
      x402_confirm_succeeds w fails' later env.invoice_uid tx s1 i amount named sent read listed
        unpaid proof covers in
    let (watches, _) =
      x402_confirm_unlocks w fails' later env.invoice_uid tx s1 i u paid listed known has_name reads
        allows in
    (paid, rw (buyer, matches.video) at watches)
