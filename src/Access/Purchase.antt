-- ===== src/Access/Purchase.antt =====
-- `user_has_view_access` after `wallet_pay_video` (src/handlers/wallet.rs).
use ppv_stream_rust.Prelude.{
  ℕ, ◌≤◌, String, ◌≡◌, inl, inr, true, Bool, Option, some, arith, is_some, ◌∙◌, Option-cases,
}
use ppv_stream_rust.Prelude.Int.{ℤ}
use ppv_stream_rust.Tables.{Store, find_user, has_pair}
use ppv_stream_rust.Tables.Users.{find_video-id}
use ppv_stream_rust.Tables.Sound.{IsSound, HasRoom}
use ppv_stream_rust.Transaction.{Faults}
use ppv_stream_rust.Access.{user_has_view_access}
use ppv_stream_rust.Access.Cases.{answered, IsEntitled, entitled}
use ppv_stream_rust.Wallet.{Session, access_granted}
use ppv_stream_rust.Wallet.Payment.{wallet_pay_video}
use ppv_stream_rust.Wallet.Payment.Atomic.{wallet_pay_video_atomic}

buyer_can_watch :
    (video_id uid : String) (s : Store)
    → is_some (find_user uid s.users) ≡ true
    → has_pair uid video_id s.purchases ≡ true
    → user_has_view_access answered video_id uid s ≡ true
buyer_can_watch video_id uid s known bought = elim (Option-cases (find_user uid s.users)) [
  | inl missing ↦ absurd (ground arith)
  | inr (u, e) ↦ entitled video_id uid s (IsEntitled.purchased u e bought)
]

-- Over tables that satisfy the wallet's invariant and hold less than 2 ^ 63 cents in all, with a
-- creator's split of at most 10000 basis points and whatever statements fail: where `wallet_pay_video`
-- answers that access is granted, its user may watch the video afterwards, also after a commission
-- has been paid.
pub wallet_pay_video_gives_access :
    (fails later : Faults) (split_bp : ℕ) (session : Session) (video_id : String)
    (ref_code : Option String) (s : Store) (bal cut price : ℤ)
    → split_bp ≤ 10000
    → IsSound s
    → HasRoom s
    → let (r, s') = wallet_pay_video fails later split_bp session video_id ref_code s in
      r ≡ access_granted bal cut price
      → (uid : String) × (admin : Bool) × (session ≡ some (uid, admin))
        × (user_has_view_access answered video_id uid s' ≡ true)
wallet_pay_video_gives_access fails later split_bp session video_id ref_code s bal cut price most h
      room won =
    elim (wallet_pay_video_atomic fails later split_bp most session video_id ref_code s h room) [
      | inl (e, lost, same) ↦ absurd cc
      | inr (o, t, c, b, rest) ↦
          let named = find_video-id video_id s.videos c.listed in
          let known = b.paid.same_people o.buyer_id ∙ b.known in
          let bought : has_pair o.buyer_id video_id t.purchases ≡ true = rw (← named) b.purchased in
          let s' = (wallet_pay_video fails later split_bp session video_id ref_code s).1 in
          (
            o.buyer_id,
            c.admin,
            c.logged_in,
            elim rest [
              | inl same ↦ rw same (buyer_can_watch video_id o.buyer_id t known bought)
              | inr (name, cents, m) ↦
                  buyer_can_watch video_id o.buyer_id s' (m.moved.same_people o.buyer_id ∙ known)
                    (rw (m.same_purchases) bought)
            ],
          )
    ]
