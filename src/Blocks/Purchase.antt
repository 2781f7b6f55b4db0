-- ===== src/Blocks/Purchase.antt =====
-- `wallet_pay_video` of a user whom the creator has blocked.
use ppv_stream_rust.Prelude.{
  ℕ, ◌≤◌, String, ◌≡◌, inl, inr, Bool, true, false, Option, some, arith, ◌∙◌, sym,
}
use ppv_stream_rust.Tables.{Store, Video, find_video, is_blocked}
use ppv_stream_rust.Tables.Users.{find_video-id}
use ppv_stream_rust.Tables.Sound.{IsSound, HasRoom}
use ppv_stream_rust.Transaction.{Faults}
use ppv_stream_rust.Wallet.{Error, failed}
use ppv_stream_rust.Wallet.Payment.{wallet_pay_video}
use ppv_stream_rust.Wallet.Payment.Atomic.{wallet_pay_video_atomic}

contradiction : {b : Bool} → b ≡ true → b ≡ false → true ≡ false
contradiction p q = sym p ∙ q

-- Over tables that satisfy the wallet's invariant and hold less than 2 ^ 63 cents in all, with a
-- creator's split of at most 10000 basis points and whatever statements fail: a user whom the owner of
-- the video has blocked, and whose block has not run out, is answered an error and nothing is changed.
pub blocked_user_cannot_buy :
    (fails later : Faults) (split_bp : ℕ) (uid video_id : String) (admin : Bool)
    (ref_code : Option String) (s : Store) (video : Video)
    → split_bp ≤ 10000
    → IsSound s
    → HasRoom s
    → find_video video_id s.videos ≡ some video
    → is_blocked video.owner_id uid s.clock s.blocks ≡ true
    → let (r, s') = wallet_pay_video fails later split_bp (some (uid, admin)) video_id ref_code s in
      (e : Error) × (r ≡ failed e) × (s' ≡ s)
blocked_user_cannot_buy fails later split_bp uid video_id admin ref_code s video most h room found
      block =
    elim (wallet_pay_video_atomic fails later split_bp most (some (uid, admin)) video_id ref_code s
      h room) [
        | inl refused ↦ refused
        | inr (o, t, c, b, rest) ↦
            let same : o.video ≡ video = ground arith in
            let buyer : uid ≡ o.buyer_id = ground arith in
            let named = find_video-id video_id s.videos c.listed in
            let free : is_blocked o.video.owner_id o.buyer_id s.clock s.blocks ≡ false =
              ground (arith, b.unblocked, c.listed, named) in
            absurd (ground (arith, contradiction block (rw (same, ← buyer) at free)))
      ]
