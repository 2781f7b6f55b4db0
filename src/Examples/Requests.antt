-- ===== src/Examples/Requests.antt =====
-- The theorems on single requests of the wallet, at the example tables.
use ppv_stream_rust.Prelude.{
  String, ◌≡◌, refl, ◌⊎◌, Bool, true, false, some, none, List, [], ◌∷◌, arith,
}
use ppv_stream_rust.Prelude.Int.{pos, ◌≤ℤ◌, ◌-ℤ◌, ◌+ℤ◌, ◌*ℤ◌, quot}
use ppv_stream_rust.Prelude.Word.{wrap64, sub64}
use ppv_stream_rust.Settings.{load_payment_settings}
use ppv_stream_rust.Tables.{
  find_user, find_video, balance_of, set_balance, insert_txn, known_ref, has_pair, is_blocked,
  find_txn,
}
use ppv_stream_rust.Tables.Sound.{IsSound}
use ppv_stream_rust.Tables.Total.{total}
use ppv_stream_rust.Transaction.{healthy}
use ppv_stream_rust.Access.{user_has_view_access}
use ppv_stream_rust.Access.Cases.{answered}
use ppv_stream_rust.Access.Purchase.{wallet_pay_video_gives_access}
use ppv_stream_rust.Wallet.{Error, failed, withdrawal_submitted, txn_rejected, access_granted}
use ppv_stream_rust.Wallet.Requests.{wallet_deposit, wallet_withdraw, withdraw_body}
use ppv_stream_rust.Wallet.Requests.Withdraw.{wallet_withdraw_cases, Withdrawn}
use ppv_stream_rust.Wallet.Rounds.{withdraw-reject_restores}
use ppv_stream_rust.Wallet.Runs.{Request, Arrival, serve, serve_all, serve_all-IsSound}
use ppv_stream_rust.Wallet.Payment.{wallet_pay_video, creator_cut_of}
use ppv_stream_rust.Wallet.Payment.Succeeds.{wallet_pay_video_succeeds}
use ppv_stream_rust.Wallet.Admin.{admin_wallet_approve, admin_wallet_complete, admin_wallet_reject}
use ppv_stream_rust.Wallet.Admin.Twice.{IsRefused, decided_row_is_final}
use ppv_stream_rust.Examples.{shop, alice, bob, root, shop-IsSound, shop-HasRoom, differ}

wallet_withdraw_cases_example :
    let (r, s') = wallet_withdraw healthy alice (pos 6000) none shop in
    ((e : Error) × (r ≡ failed e) × (s' ≡ shop))
    ⊎ ((uid : String) × (admin : Bool) × (alice ≡ some (uid, admin))
        × (pos 5000 ≤ℤ pos 6000)
        × (pos 6000 ≤ℤ balance_of shop.users uid)
        × (r ≡ withdrawal_submitted 2 (balance_of shop.users uid -ℤ pos 6000))
        × (((false ≡ false) × Withdrawn uid (pos 6000) shop s') ⊎ ((false ≡ true) × (s' ≡ shop))))
wallet_withdraw_cases_example =
    wallet_withdraw_cases healthy alice (pos 6000) none shop shop-IsSound shop-HasRoom

alice_withdraws :
    (wallet_withdraw healthy alice (pos 6000) none shop).0 ≡ withdrawal_submitted 2 (pos 14000)
unfolding wallet_withdraw withdraw_body find_user insert_txn known_ref set_balance sub64 wrap64 ◌-ℤ◌
alice_withdraws = refl

withdraw-reject_restores_example :
    let asked = (wallet_withdraw healthy alice (pos 6000) none shop).1 in
    let (r, s') = admin_wallet_reject healthy (some ("r", true)) 2 none asked in
    (r ≡ txn_rejected true) × ((j : String) → balance_of s'.users j ≡ balance_of shop.users j)
withdraw-reject_restores_example =
    withdraw-reject_restores alice (pos 6000) none none "r" shop shop-IsSound shop-HasRoom 2
      (pos 14000) alice_withdraws

decided_row_is_final_example :
    IsRefused shop (admin_wallet_approve healthy root 1 none shop)
    × IsRefused shop (admin_wallet_reject healthy root 1 none shop)
    × IsRefused shop (admin_wallet_complete healthy root 1 none shop)
unfolding find_txn
decided_row_is_final_example = decided_row_is_final healthy 1 none shop _ refl (λ p. absurd cc) root

alice_pays :
    (wallet_pay_video healthy healthy 9000 (some ("a", false)) "v" none shop).0
    ≡ access_granted
        (sub64 (balance_of shop.users "a") (pos 5000))
        (creator_cut_of (pos 5000) 9000)
        (pos 5000)
unfolding find_user find_video load_payment_settings balance_of has_pair is_blocked creator_cut_of
    wrap64 quot ◌*ℤ◌
alice_pays =
    wallet_pay_video_succeeds healthy 9000 "a" "v" false none shop _ refl (differ "v" "" refl) refl
      refl refl (differ "c" "a" refl) (omega arith) (omega arith) refl refl (omega arith)

wallet_pay_video_gives_access_example :
    let s' = (wallet_pay_video healthy healthy 9000 (some ("a", false)) "v" none shop).1 in
    (uid : String) × (admin : Bool) × (alice ≡ some (uid, admin))
    × (user_has_view_access answered "v" uid s' ≡ true)
wallet_pay_video_gives_access_example =
    wallet_pay_video_gives_access healthy healthy 9000 alice "v" none shop _ _ _ (omega arith)
      shop-IsSound shop-HasRoom alice_pays

abbrev arrivals : List Arrival
arrivals =
    (healthy, healthy, bob, Request.deposit (pos 1500) none)
    ∷ (healthy, healthy, alice, Request.pay_video "v" (some "dave"))
    ∷ []

serve_all-IsSound_example : IsSound (serve_all 9000 arrivals shop)
unfolding serve wallet_deposit insert_txn known_ref find_user total ◌+ℤ◌
serve_all-IsSound_example =
    serve_all-IsSound 9000 arrivals shop (omega arith) (shop-HasRoom, (omega arith, tt))
      shop-IsSound
