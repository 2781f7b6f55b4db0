-- ===== src/Wallet/Settle/Succeeds.antt =====
-- The four statements of a payment where no statement fails.
use ppv_stream_rust.Prelude.{String, ◌≡◌, refl, true, some, arith, is_some, ◌∷◌, ◌+◌}
use ppv_stream_rust.Prelude.Int.{ℤ, pos, ◌<ℤ◌}
use ppv_stream_rust.Prelude.Attempt.{done}
use ppv_stream_rust.Tables.{Store, NewTxn, row_of, find_user, insert_txn, known_ref, set_balance}
use ppv_stream_rust.Transaction.{opened, healthy}
use ppv_stream_rust.Wallet.Settle.{settle, settled}
use ppv_stream_rust.Wallet.Settle.Exact.{still_user}

insert_txn_succeeds :
    (n : NewTxn) (s : Store) (other : String)
    → pos 0 <ℤ n.amount_cents
    → is_some (find_user n.user_id s.users) ≡ true
    → n.ref_user_id ≡ some other
    → is_some (find_user other s.users) ≡ true
    → insert_txn n s
      ≡ some (record s { txns = row_of s.next_txn n ∷ s.txns; next_txn = s.next_txn + 1 })
unfolding insert_txn known_ref
insert_txn_succeeds n s other least known ref known' = rw (ref, known, known') (ground arith)

module _ (payer : String) (payer_new : ℤ) (payee : String) (payee_new : ℤ) (out in' : NewTxn)
    (s : Store) (least : pos 0 <ℤ out.amount_cents) (least' : pos 0 <ℤ in'.amount_cents)
    (known : is_some (find_user payer s.users) ≡ true)
    (known' : is_some (find_user payee s.users) ≡ true) (of : out.user_id ≡ payer)
    (of' : in'.user_id ≡ payee) (ref : out.ref_user_id ≡ some payee)
    (ref' : in'.ref_user_id ≡ some payer) where
  abbrev paid : Store
  paid = record s { users = set_balance payee payee_new (set_balance payer payer_new s.users) }

  still : (j : String) → is_some (find_user j paid.users) ≡ is_some (find_user j s.users)
  still j = still_user payer payer_new payee payee_new j s.users

  pub settle_succeeds :
      settle healthy payer payer_new payee payee_new out in' (opened s)
      ≡ done (opened (settled payer payer_new payee payee_new out in' s))
  unfolding settle settled
  settle_succeeds =
      let paid1 = record paid {
        txns = row_of s.next_txn out ∷ s.txns;
        next_txn = s.next_txn + 1;
      } in
      let one =
        insert_txn_succeeds out paid payee least (rw of (rw (still payer) known)) ref
          (rw (still payee) known') in
      let two =
        insert_txn_succeeds in' paid1 payer least' (rw of' (rw (still payee) known')) ref'
          (rw (still payer) known) in
      rw one (rw two refl)
