-- ===== src/Wallet/Payment/Outcome.antt =====
-- What the transaction of a purchase has done when it ends.
use Prim.Native.String
use ppv_stream_rust.Prelude.{
  String, ◌≡◌, inl, inr, true, false, Option, some, List, ◌∷◌, arith, is_some, eq_iff, ◌≢◌,
  Option-cases,
}
use ppv_stream_rust.Prelude.Int.{ℤ, pos, ◌≤ℤ◌, ◌<ℤ◌}
use ppv_stream_rust.Prelude.Word.{add64, sub64}
use ppv_stream_rust.Prelude.Attempt.{Attempt, done, Attempt-cases}
use ppv_stream_rust.Tables.{NewTxn, Store, TxnType, find_user, balance_of, has_pair, insert_pair}
use ppv_stream_rust.Transaction.{Stmt, Faults, Tx, opened, fetch_or, ignore, execute}
use ppv_stream_rust.Wallet.{Reply, access_granted}
use ppv_stream_rust.Wallet.Settle.{settle, settled}
use ppv_stream_rust.Wallet.Settle.Exact.{settle-done}
use ppv_stream_rust.Wallet.Payment.{
  owner_blocks, Order, payment_row, insert_purchase, grant, payment_tx,
}

-- The tables that the four statements of `settle` leave for a purchase.
unfoldable pub after_settle : Order → Store → Store
after_settle o s =
    let buyer_new = sub64 (balance_of s.users o.buyer_id) o.video.price_cents in
    let creator_new = add64 (balance_of s.users o.video.owner_id) o.creator_cut in
    settled o.buyer_id buyer_new o.video.owner_id creator_new
      (payment_row TxnType.payment o.buyer_id o.video.price_cents buyer_new o.video.owner_id
        (String.◌++◌ "Video purchase: " o.video.id))
      (payment_row TxnType.transfer_in o.video.owner_id o.creator_cut creator_new o.buyer_id
        (String.◌++◌ "Video sale: " o.video.id))
      s

-- A pair that was inserted is there.
pub has_pair-insert_pair :
    (a b : String) (ps : List (String × String)) → has_pair a b (insert_pair a b ps) ≡ true
unfolding has_pair insert_pair
has_pair-insert_pair a b ps = ground (arith, eq_iff a a, eq_iff b b)

pub has_pair-cons : (a b : String) (ps : List (String × String)) → has_pair a b ((a, b) ∷ ps) ≡ true
unfolding has_pair
has_pair-cons a b ps = ground (arith, eq_iff a a, eq_iff b b)

pub grant-some :
    (fails : Faults) (o : Order) (tx : Tx) {tx' : Tx}
    → grant fails o tx ≡ some tx'
    → (tx'.aborted ≡ tx.aborted)
      × (tx'.store ≡ record tx.store { allowlist = tx'.store.allowlist })
      × ((o.buyer_username ≢ "") → has_pair o.video.id o.buyer_username tx'.store.allowlist ≡ true)
unfolding grant
grant-some fails o tx {tx'} h = (
  ground arith,
  ground arith,
  λ ne. ground (
    arith,
    eq_iff o.buyer_username "",
    has_pair-insert_pair o.video.id o.buyer_username tx.store.allowlist,
  ),
)

-- A purchase whose transaction ended with `r` and the tables `t`.
pub record Written (o : Order) (s : Store) (r : Reply) (t : Store) : Type 0 where
  pub users : t.users ≡ (after_settle o s).users
  pub txns : t.txns ≡ (after_settle o s).txns
  pub next_txn : t.next_txn ≡ (after_settle o s).next_txn
  pub purchases : t.purchases ≡ (o.buyer_id, o.video.id) ∷ s.purchases
  pub allowed : (o.buyer_username ≢ "") → has_pair o.video.id o.buyer_username t.allowlist ≡ true
  pub answer :
      r
      ≡ access_granted
          (sub64 (balance_of s.users o.buyer_id) o.video.price_cents)
          o.creator_cut
          o.video.price_cents
  pub cover : o.video.price_cents ≤ℤ balance_of s.users o.buyer_id
  pub least : pos 0 <ℤ o.creator_cut
  pub buyer_known : is_some (find_user o.buyer_id s.users) ≡ true
  pub owner_known : is_some (find_user o.video.owner_id s.users) ≡ true
  pub unblocked : owner_blocks o.buyer_id o.video.id s ≡ false

module _ (fails : Faults) (o : Order) (s : Store) where
  abbrev locked : Tx
  locked = ignore fails Stmt.lock_rows (opened s)

  abbrev buyer : ℤ × Tx
  buyer = fetch_or fails Stmt.select_first (pos 0) (λ t. balance_of t.users o.buyer_id) locked

  abbrev creator : ℤ × Tx
  creator =
      fetch_or fails Stmt.select_second (pos 0) (λ t. balance_of t.users o.video.owner_id) buyer.1

  abbrev settling : Attempt Stmt Tx
  settling =
      let buyer_new = sub64 buyer.0 o.video.price_cents in
      let creator_new = add64 creator.0 o.creator_cut in
      settle fails o.buyer_id buyer_new o.video.owner_id creator_new
        (payment_row TxnType.payment o.buyer_id o.video.price_cents buyer_new o.video.owner_id
          (String.◌++◌ "Video purchase: " o.video.id))
        (payment_row TxnType.transfer_in o.video.owner_id o.creator_cut creator_new o.buyer_id
          (String.◌++◌ "Video sale: " o.video.id))
        creator.1

  abbrev recording : Tx → Option Tx
  recording = execute fails Stmt.insert_purchase (insert_purchase o.buyer_id o.video.id)

  recording-some :
      {moved bought : Tx}
      → recording moved ≡ some bought
      → (bought.aborted ≡ moved.aborted)
        × (bought.store
            ≡ record moved.store { purchases = (o.buyer_id, o.video.id) ∷ moved.store.purchases })
        × (owner_blocks o.buyer_id o.video.id moved.store ≡ false)
  unfolding insert_purchase
  recording-some h = (ground arith, ground arith, ground arith)

  -- The four statements of a payment touch no video and no block.
  unblocked_before :
      (a b : ℤ) (out in' : NewTxn) (t t' : Store)
      → t' ≡ settled o.buyer_id a o.video.owner_id b out in' t
      → owner_blocks o.buyer_id o.video.id t' ≡ false
      → owner_blocks o.buyer_id o.video.id t ≡ false
  unfolding settled
  unblocked_before a b out in' t t' q h = rw q at h

  creator_store : creator.1.store ≡ s
  creator_store = ground arith

  pub payment_tx-done :
      {tx : Tx} {r : Reply}
      → payment_tx fails o s ≡ done (tx, r)
      → (tx.aborted ≡ false) × Written o s r tx.store
  unfolding payment_tx after_settle
  payment_tx-done {tx} {r} h = elim (Attempt-cases settling) [
    | inl (e, q) ↦ absurd (ground arith)
    | inr (moved, q) ↦
        let facts = settle-done fails _ _ _ _ _ _ creator.1 q in
        elim (Option-cases (recording moved)) [
          | inl missed ↦ absurd (ground arith)
          | inr (bought, b) ↦ elim (Option-cases (grant fails o bought)) [
            | inl missed ↦ absurd (ground arith)
            | inr (granted, g) ↦
                let stored = recording-some b in
                let given = grant-some fails o bought g in
                let ended : granted ≡ tx = ground arith in
                (
                  ground (arith, facts, given, ended, stored),
                  record {
                    users = ground (arith, facts, given, ended, stored);
                    txns = ground (arith, facts, given, ended, stored);
                    next_txn = ground (arith, facts, given, ended, stored);
                    purchases = unfold settled in ground (arith, facts, given, ended, stored);
                    allowed = rw (← ended) given.2;
                    answer = ground arith;
                    cover = ground arith;
                    least = facts.4;
                    buyer_known = ground (arith, facts);
                    owner_known = ground (arith, facts);
                    unblocked =
                        rw creator_store at
                          (unblocked_before _ _ _ _ creator.1.store moved.store facts.2 stored.2);
                  },
                )
          ]
        ]
  ]
