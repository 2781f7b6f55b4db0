-- ===== src/Wallet/Payment/Checks.antt =====
-- What `wallet_pay_video` has established before it writes.
use ppv_stream_rust.Prelude.{
  ℕ, String, ◌≡◌, ◌≢◌, ◌⊎◌, inl, inr, true, false, Bool, none, some, arith, eq_iff, Option-cases,
}
use ppv_stream_rust.Prelude.Int.{pos, ◌<ℤ◌}
use ppv_stream_rust.Prelude.Attempt.{done}
use ppv_stream_rust.Tables.{Store, find_user, find_video, has_pair}
use ppv_stream_rust.Transaction.{Stmt, Faults}
use ppv_stream_rust.Wallet.{Session}
use ppv_stream_rust.Wallet.Payment.{Order, creator_cut_of, payment_order, username_of}

-- The order of a logged in buyer for a video of another user that has a price; unless the query of
-- the purchases failed, the buyer has not bought it before.
pub record Checked (fails : Faults) (split_bp : ℕ) (session : Session) (video_id : String)
    (s : Store) (o : Order) : Type 0 where
  pub admin : Bool
  pub logged_in : session ≡ some (o.buyer_id, admin)
  pub listed : find_video video_id s.videos ≡ some o.video
  pub other : o.video.owner_id ≢ o.buyer_id
  pub priced : pos 0 <ℤ o.video.price_cents
  pub new : (fails Stmt.select_purchase ≡ true) ⊎ (has_pair o.buyer_id video_id s.purchases ≡ false)
  pub share : o.creator_cut ≡ creator_cut_of o.video.price_cents split_bp
  pub name : o.buyer_username ≡ username_of fails o.buyer_id s

pub payment_order-done :
    (fails : Faults) (split_bp : ℕ) (session : Session) (video_id : String) (s : Store) {o : Order}
    → payment_order fails split_bp session video_id s ≡ done o
    → Checked fails split_bp session video_id s o
unfolding payment_order
payment_order-done fails split_bp none video_id s h = absurd (ground arith)
payment_order-done fails split_bp (some (uid, admin)) video_id s {o} h =
    elim (Option-cases (find_video video_id s.videos)) [
      | inl missing ↦ absurd (ground arith)
      | inr (video, v) ↦ elim (Option-cases (find_user video.owner_id s.users)) [
        | inl missing ↦ absurd (ground arith)
        | inr (owner, w) ↦ record {
          admin = admin;
          logged_in = ground arith;
          listed = ground arith;
          other = ground (arith, eq_iff video.owner_id uid);
          priced = ground arith;
          new = ground arith;
          share = ground arith;
          name = ground arith;
        }
      ]
    ]
