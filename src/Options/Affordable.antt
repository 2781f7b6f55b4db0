-- ===== src/Options/Affordable.antt =====
-- `all_options` and `wallet_pay_video` (src/handlers/wallet.rs) on the same tables.
use ppv_stream_rust.Prelude.{
  ℕ, ◌*◌, ◌/◌, ◌≤◌, ◌⊎◌, inl, inr, ◌∙◌, String, ◌≡◌, ◌≢◌, Bool, true, false, Option, some, none,
  List, arith, is_some, eq_iff,
}
use ppv_stream_rust.Prelude.Int.{ℤ, pos, ◌≤ℤ◌, ◌<ℤ◌, ◌-ℤ◌}
use ppv_stream_rust.Prelude.Attempt.{done}
use ppv_stream_rust.Settings.{load_payment_settings}
use ppv_stream_rust.Tables.Sound.{IsSound, HasRoom}
use ppv_stream_rust.Commission.Atomic.{Commissioned}
use ppv_stream_rust.Wallet.Settle.Pays.{Paid}
use ppv_stream_rust.Wallet.Payment.Atomic.{wallet_pay_video_atomic}
use ppv_stream_rust.Tables.{Store, Video, find_user, find_video, balance_of, has_pair, is_blocked}
use ppv_stream_rust.Transaction.{Faults, healthy}
use ppv_stream_rust.Wallet.{access_granted}
use ppv_stream_rust.Wallet.Payment.{creator_cut_of, wallet_pay_video}
use ppv_stream_rust.Wallet.Payment.Succeeds.{wallet_pay_video_succeeds}
use ppv_stream_rust.X402.{Books, PayToken}
use ppv_stream_rust.Options.{Query, AllOptions, offer, all_options}

-- No query fails.
abbrev pub healthy_query : Query → Bool
healthy_query q = false

module _ (sorted : List PayToken → List PayToken) (uid video_id : String) (admin : Bool) (s : Books)
    (o : AllOptions) where
  -- Where no query fails, what `all_options` answers to a logged in user for a video that is here.
  record Offered (video : Video) : Type 0 where
    pub named : video_id ≢ ""
    pub price : o.price_cents ≡ video.price_cents
    pub enabled :
        (load_payment_settings false s.main.payment_settings).wallet_payment_enabled ≡ true
    pub other : video.owner_id ≢ uid
    pub covered : video.price_cents ≤ℤ balance_of s.main.users uid
    pub bought : o.already_purchased ≡ has_pair uid video_id s.main.purchases

  offered :
      (video : Video)
      → find_video video_id s.main.videos ≡ some video
      → all_options healthy_query sorted (some (uid, admin)) video_id s ≡ done o
      → o.can_afford ≡ some true
      → Offered video
  unfolding all_options offer
  offered video listed told afford = record {
    named = ground (arith, eq_iff video_id "");
    price = ground arith;
    enabled = ground arith;
    other = ground (arith, eq_iff uid video.owner_id);
    covered = ground arith;
    bought = ground arith;
  }

  -- Over tables that satisfy the wallet's invariant and hold less than 2 ^ 63 cents in all, with a
  -- creator's split of at most 10000 basis points, where no query of `all_options` and no statement of
  -- the payment fails: if `all_options` tells a user who is there that the video can be afforded from
  -- the wallet and has not been purchased, the price and the creator's share of it are positive, and
  -- the owner is there and has not blocked the user, then `wallet_pay_video` on the same tables grants
  -- access: the user has lost the price that was told, the owner has gained the split of it (rounded
  -- down), no other balance has changed and the purchase is recorded; and after that either nothing
  -- more happened or one affiliate commission was paid.
  pub all_options-wallet_pay_video :
      (later : Faults) (split_bp : ℕ) (ref_code : Option String) (video : Video)
      → split_bp ≤ 10000
      → IsSound s.main
      → HasRoom s.main
      → all_options healthy_query sorted (some (uid, admin)) video_id s ≡ done o
      → o.can_afford ≡ some true
      → o.already_purchased ≡ false
      → find_video video_id s.main.videos ≡ some video
      → is_some (find_user video.owner_id s.main.users) ≡ true
      → is_some (find_user uid s.main.users) ≡ true
      → pos 0 <ℤ o.price_cents
      → pos 0 <ℤ creator_cut_of o.price_cents split_bp
      → is_blocked video.owner_id uid s.main.clock s.main.blocks ≡ false
      → let (r, s') =
          wallet_pay_video healthy later split_bp (some (uid, admin)) video_id ref_code s.main in
        (price : ℕ) × (t : Store) × (o.price_cents ≡ pos price)
        × Paid uid video.owner_id (pos price) (pos (price * split_bp / 10000)) s.main t
        × (has_pair uid video.id t.purchases ≡ true)
        × (r
            ≡ access_granted
                (balance_of s.main.users uid -ℤ pos price)
                (pos (price * split_bp / 10000))
                (pos price))
        × ((s' ≡ t)
            ⊎ ((name : String) × (cents : ℤ) × Commissioned video.id uid video.owner_id
                  (pos price)
                  name
                  "wallet"
                  none
                  t
                  cents
                  s'))
  all_options-wallet_pay_video later split_bp ref_code video most sound room told afford fresh
        listed owner known priced shared free =
      let f = offered video listed told afford in
      let says =
        wallet_pay_video_succeeds later split_bp uid video_id admin ref_code s.main video f.enabled
          f.named listed owner known f.other (rw⁻¹ f.price priced) (rw⁻¹ f.price shared)
          (ground (arith, f.bought)) free f.covered in
      elim (wallet_pay_video_atomic healthy later split_bp most (some (uid, admin)) video_id
        ref_code s.main sound room) [
          | inl (e, refuses, same) ↦ absurd (ground (arith, says, refuses))
          | inr (order, t, c, b, rest) ↦
              let buyer : order.buyer_id ≡ uid = ground (arith, c.logged_in) in
              let sold : order.video ≡ video = ground (arith, c.listed, listed) in
              let price : video.price_cents ≡ pos b.price = rw (← sold) b.priced in
              (
                b.price,
                t,
                f.price ∙ price,
                rw buyer at (rw sold at b.paid),
                rw (buyer, sold) at b.purchased,
                rw buyer at b.answer,
                rw (buyer, sold, price) at rest,
              )
        ]
