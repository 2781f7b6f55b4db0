-- ===== src/Examples/Races.antt =====
-- Requests that come between the statements of another, at the example tables.
use ppv_stream_rust.Prelude.{◌≡◌, refl, none, [], ◌∷◌, arith, eq_iff}
use ppv_stream_rust.Prelude.Int.{pos, ◌+ℤ◌}
use ppv_stream_rust.Prelude.Word.{add64, sub64}
use ppv_stream_rust.Prelude.Attempt.{done}
use ppv_stream_rust.Tables.{
  Store, TxnType, Status, find_user, find_video, balance_of, is_blocked, find_txn, set_balance,
}
use ppv_stream_rust.Tables.Ledger.{ledger, effect}
use ppv_stream_rust.Tables.Sound.{IsSound}
use ppv_stream_rust.Transaction.{healthy}
use ppv_stream_rust.Wallet.{access_granted, finish}
use ppv_stream_rust.Wallet.Payment.{Order, payment_tx}
use ppv_stream_rust.Wallet.Payment.Succeeds.{stale_order_charges_again}
use ppv_stream_rust.Wallet.Admin.{complete_update}
use ppv_stream_rust.Wallet.Admin.Overtaken.{overtaken_completion_unsound}
use ppv_stream_rust.Examples.{shop, shop-IsSound}

abbrev order : Order
order = record {
  buyer_id = "a";
  buyer_username = "alice";
  video = record { id = "v"; owner_id = "c"; price_cents = pos 5000 };
  creator_cut = pos 4500;
}

stale_order_charges_again_example :
    let s' = record shop { purchases = ("a", "v") ∷ [] } in
    let (r, t) = finish healthy s' (payment_tx healthy order s') in
    let buyer_new = sub64 (balance_of shop.users "a") (pos 5000) in
    let owner_new = add64 (balance_of shop.users "c") (pos 4500) in
    (r ≡ access_granted buyer_new (pos 4500) (pos 5000))
    × (t.users ≡ set_balance "c" owner_new (set_balance "a" buyer_new shop.users))
    × (t.purchases ≡ ("a", "v") ∷ ("a", "v") ∷ [])
unfolding find_user find_video balance_of is_blocked
stale_order_charges_again_example =
    stale_order_charges_again order shop [] (omega arith) (omega arith) (omega arith) refl refl refl
      refl

abbrev refunded : Store
refunded = record shop {
  txns =
      record {
        id = 2;
        user_id = "a";
        txn_type = TxnType.withdrawal;
        amount_cents = pos 6000;
        balance_after = pos 14000;
        status = Status.rejected;
        ref_user_id = none;
        note = none;
        admin_note = none;
      }
      ∷ shop.txns;
  next_txn = 3;
}

refunded-IsSound : IsSound refunded
unfolding find_user balance_of ledger effect ◌+ℤ◌
refunded-IsSound = record {
  keyed = shop-IsSound.keyed;
  numbered = (omega arith, (omega arith, tt));
  nonneg = shop-IsSound.nonneg;
  positive = (omega arith, (omega arith, tt));
  owned = (refl, (refl, tt));
  reconciled = λ j. ground (arith, eq_iff "a" j);
}

overtaken_completion_unsound_example :
    ¬ IsSound (complete_update healthy 2 none (done tt) refunded).1
unfolding find_txn
overtaken_completion_unsound_example =
    overtaken_completion_unsound healthy 2 none refunded _ refunded-IsSound refl refl refl refl
