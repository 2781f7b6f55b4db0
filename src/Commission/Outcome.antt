-- ===== src/Commission/Outcome.antt =====
-- `process_affiliate_commission`: its ends, and what the tables are at each.
use ppv_stream_rust.Prelude.{String, ◌≡◌, inl, inr, true, false, Option, ◌∷◌, arith, is_some}
use Prim.Native.String
use ppv_stream_rust.Prelude.Int.{ℤ, pos, ◌≤ℤ◌, ◌<ℤ◌}
use ppv_stream_rust.Prelude.Word.{add64, sub64}
use ppv_stream_rust.Prelude.Attempt.{done, Attempt-cases}
use ppv_stream_rust.Tables.{Store, Commission, TxnType, find_user, balance_of}
use ppv_stream_rust.Transaction.{Stmt, Faults, Tx, opened, fetch_or, ignore}
use ppv_stream_rust.Wallet.Settle.{settle, settled}
use ppv_stream_rust.Wallet.Settle.Exact.{settle-done}
use ppv_stream_rust.Commission.{commission_row, commission_tx}

-- The tables that the four statements of `settle` leave for a commission.
unfoldable pub after_settle : String → String → String → ℤ → Store → Store
after_settle video owner aff cents s =
    let creator_new = sub64 (balance_of s.users owner) cents in
    let aff_new = add64 (balance_of s.users aff) cents in
    settled owner creator_new aff aff_new
      (commission_row TxnType.transfer_out owner cents creator_new aff
        (String.◌++◌ "Affiliate commission: " video))
      (commission_row TxnType.transfer_in aff cents aff_new owner
        (String.◌++◌ "Commission earned: " video))
      s

-- The row of `affiliate_commissions`.
abbrev pub audit : String → String → String → String → ℤ → ℤ → String → Option String → Commission
audit video buyer owner aff price cents method invoice = record {
  video_id = video;
  affiliate_id = aff;
  buyer_id = buyer;
  owner_id = owner;
  purchase_price_cents = price;
  commission_cents = cents;
  payment_method = method;
  ref_invoice_uid = invoice;
}

module _ (fails : Faults) (video buyer owner aff : String) (price cents : ℤ) (method : String)
    (invoice : Option String) (s : Store) where
  abbrev locked : Tx
  locked = ignore fails Stmt.lock_rows (opened s)

  abbrev creator : ℤ × Tx
  creator = fetch_or fails Stmt.select_first (pos 0) (λ t. balance_of t.users owner) locked

  abbrev affiliate : ℤ × Tx
  affiliate = fetch_or fails Stmt.select_second (pos 0) (λ t. balance_of t.users aff) creator.1

  pub commission_tx-done :
      {tx : Tx}
      → commission_tx fails video buyer owner aff price cents method invoice s ≡ done tx
      → (tx.aborted ≡ false)
        × (tx.store ≡ record (after_settle video owner aff cents s) {
          commissions =
              audit video buyer owner aff price cents method invoice
              ∷ (after_settle video owner aff cents s).commissions;
        })
        × (cents ≤ℤ balance_of s.users owner)
        × (pos 0 <ℤ cents)
        × (is_some (find_user owner s.users) ≡ true)
        × (is_some (find_user aff s.users) ≡ true)
  unfolding commission_tx after_settle
  commission_tx-done {tx} h =
      let creator_new = sub64 creator.0 cents in
      let aff_new = add64 affiliate.0 cents in
      let out =
        commission_row TxnType.transfer_out owner cents creator_new aff
          (String.◌++◌ "Affiliate commission: " video) in
      let in' =
        commission_row TxnType.transfer_in aff cents aff_new owner
          (String.◌++◌ "Commission earned: " video) in
      elim (Attempt-cases (settle fails owner creator_new aff aff_new out in' affiliate.1)) [
        | inl (e, q) ↦ absurd (ground arith)
        | inr (moved, q) ↦
            let facts = settle-done fails owner creator_new aff aff_new out in' affiliate.1 q in
            (
              ground (arith, facts),
              ground (arith, facts),
              ground (arith, facts),
              ground (arith, facts),
              ground (arith, facts),
              ground (arith, facts),
            )
      ]
