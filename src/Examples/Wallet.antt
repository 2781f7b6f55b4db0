-- ===== src/Examples/Wallet.antt =====
-- The wallet's theorems at the example tables.
use ppv_stream_rust.Prelude.{◌≡◌, ◌⊎◌, some, none, String, arith}
use ppv_stream_rust.Prelude.Int.{ℤ, pos}
use ppv_stream_rust.Tables.{Store}
use ppv_stream_rust.Transaction.{Stmt, healthy}
use ppv_stream_rust.Commission.{ok, err, process_affiliate_commission}
use ppv_stream_rust.Commission.Atomic.{process_affiliate_commission_atomic, Commissioned}
use ppv_stream_rust.Wallet.{Error, failed}
use ppv_stream_rust.Wallet.Transfer.{wallet_transfer}
use ppv_stream_rust.Wallet.Transfer.Atomic.{wallet_transfer_atomic, Sent}
use ppv_stream_rust.Wallet.Payment.{Order, wallet_pay_video, creator_cut_of}
use ppv_stream_rust.Wallet.Payment.Split.{creator_cut_exact}
use ppv_stream_rust.Wallet.Payment.Atomic.{Bought, wallet_pay_video_atomic}
use ppv_stream_rust.Wallet.Payment.Checks.{Checked}
use ppv_stream_rust.Wallet.Admin.{admin_wallet_approve, admin_wallet_reject}
use ppv_stream_rust.Wallet.Admin.Approve.{admin_wallet_approve_credits, Credited}
use ppv_stream_rust.Wallet.Admin.Reject.{admin_wallet_reject_refunds, Refunded}
use ppv_stream_rust.Examples.{shop, alice, root, shop-IsSound, shop-HasRoom}

creator_cut_exact_example : creator_cut_of (pos 199) 9000 ≡ pos 179
creator_cut_exact_example = creator_cut_exact 199 9000 (omega arith) (omega arith)

wallet_transfer_atomic_example :
    let (r, s') = wallet_transfer healthy alice " bob" (pos 700) none shop in
    ((e : Error) × (r ≡ failed e) × (s' ≡ shop)) ⊎ Sent alice " bob" (pos 700) shop r s'
wallet_transfer_atomic_example =
    wallet_transfer_atomic healthy alice " bob" (pos 700) none shop shop-IsSound shop-HasRoom

admin_wallet_approve_credits_example :
    let (r, s') = admin_wallet_approve healthy root 1 none shop in
    ((e : Error) × (r ≡ failed e) × (s' ≡ shop)) ⊎ Credited root 1 shop r s'
admin_wallet_approve_credits_example =
    admin_wallet_approve_credits healthy root 1 none shop shop-IsSound

admin_wallet_reject_refunds_example :
    let (r, s') = admin_wallet_reject healthy root 1 none shop in
    ((e : Error) × (r ≡ failed e) × (s' ≡ shop)) ⊎ Refunded root 1 shop r s'
admin_wallet_reject_refunds_example =
    admin_wallet_reject_refunds healthy root 1 none shop shop-IsSound

process_affiliate_commission_atomic_example :
    let (r, s') =
      process_affiliate_commission healthy "v" "b" "a" (pos 5000) "dave" "wallet" none shop in
    ((q : Stmt) × (r ≡ err q) × (s' ≡ shop))
    ⊎ ((r ≡ ok (pos 0)) × (s' ≡ shop))
    ⊎ ((cents : ℤ) × (r ≡ ok cents)
        × Commissioned "v" "b" "a" (pos 5000) "dave" "wallet" none shop cents s')
process_affiliate_commission_atomic_example =
    process_affiliate_commission_atomic healthy "v" "b" "a" (pos 5000) "dave" "wallet" none shop
      shop-IsSound shop-HasRoom

wallet_pay_video_atomic_example :
    let (r, s') = wallet_pay_video healthy healthy 9000 alice "v" (some "dave") shop in
    ((e : Error) × (r ≡ failed e) × (s' ≡ shop))
    ⊎ ((o : Order) × (t : Store) × Checked healthy 9000 alice "v" shop o
        × Bought 9000 o shop r t
        × ((s' ≡ t)
            ⊎ ((name : String) × (cents : ℤ) × Commissioned o.video.id o.buyer_id o.video.owner_id
                  o.video.price_cents name "wallet" none t cents s')))
wallet_pay_video_atomic_example =
    wallet_pay_video_atomic healthy healthy 9000 (omega arith) alice "v" (some "dave") shop
      shop-IsSound shop-HasRoom
