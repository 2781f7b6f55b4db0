-- ===== src/Wallet/Payment/NoShare.antt =====
-- `wallet_pay_video` where the creator's share is rounded to nothing.
use ppv_stream_rust.Prelude.{ℕ, suc, ◌≤◌, ◌<◌, ◌*◌, ◌/◌, String, ◌≡◌, inl, inr, Option, some, arith}
use ppv_stream_rust.Prelude.Int.{ℤ, pos, ◌<ℤ◌}
use ppv_stream_rust.Tables.{Store, Video, find_video}
use ppv_stream_rust.Tables.Sound.{IsSound, HasRoom}
use ppv_stream_rust.Transaction.{Faults}
use ppv_stream_rust.Wallet.{Session, Error, failed}
use ppv_stream_rust.Wallet.Payment.{wallet_pay_video}
use ppv_stream_rust.Wallet.Payment.Atomic.{wallet_pay_video_atomic}

no_cent : (z : ℤ) (n : ℕ) → z ≡ pos n → pos 0 <ℤ z → n < 1 → n ≡ suc n
no_cent z n p q r = ground arith

-- Over tables that satisfy the wallet's invariant and hold less than 2 ^ 63 cents in all, with a split
-- of at most 10000 basis points: where the price times the basis points is less than 10000, so that
-- the creator's share is rounded to 0 cents, a purchase is refused and changes nothing, whoever the
-- buyer is and even where no statement fails.
pub no_share_no_purchase :
    (fails later : Faults) (split_bp : ℕ) (session : Session) (video_id : String)
    (ref_code : Option String) (s : Store) (video : Video) (price : ℕ)
    → split_bp ≤ 10000
    → IsSound s
    → HasRoom s
    → find_video video_id s.videos ≡ some video
    → video.price_cents ≡ pos price
    → price * split_bp < 10000
    → let (r, s') = wallet_pay_video fails later split_bp session video_id ref_code s in
      (e : Error) × (r ≡ failed e) × (s' ≡ s)
no_share_no_purchase fails later split_bp session video_id ref_code s video price most h room found
      costs small =
    elim (wallet_pay_video_atomic fails later split_bp most session video_id ref_code s h room) [
      | inl refused ↦ refused
      | inr (o, t, c, b, rest) ↦
          let same : b.price ≡ price = ground (arith, b.priced, c.listed) in
          let cut : o.creator_cut ≡ pos (price * split_bp / 10000) = rw (← same) b.cut in
          absurd (
            ground
              (arith, no_cent o.creator_cut (price * split_bp / 10000) cut b.least (omega arith)))
    ]
