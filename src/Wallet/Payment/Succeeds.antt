-- ===== src/Wallet/Payment/Succeeds.antt =====
-- `wallet_pay_video` where its conditions are met and nothing fails.
use Prim.Native.String
use ppv_stream_rust.Prelude.{
  ℕ, String, ◌≡◌, refl, ap, ◌∙◌, ◌∷◌, ◌≢◌, Bool, true, false, Option, some, arith, is_some, List,
  ◌==◌, eq_iff, inl, inr, Bool-cases, Option-cases,
}
use ppv_stream_rust.Prelude.Int.{ℤ, pos, ◌≤ℤ◌, ◌<ℤ◌, ltb_ℤ, leb_ℤ}
use ppv_stream_rust.Prelude.Word.{add64, sub64}
use ppv_stream_rust.Settings.{load_payment_settings}
use ppv_stream_rust.Tables.{
  Store, Video, TxnType, find_video, is_blocked, find_user, balance_of, has_pair, NewTxn,
  set_balance, insert_pair,
}
use ppv_stream_rust.Tables.Users.{find_video-id}
use ppv_stream_rust.Transaction.{healthy, Faults}
use ppv_stream_rust.Wallet.{finish, access_granted}
use ppv_stream_rust.Wallet.Settle.{settled}
use ppv_stream_rust.Wallet.Settle.Exact.{still_user}
use ppv_stream_rust.Wallet.Settle.Succeeds.{settle_succeeds}
use ppv_stream_rust.Wallet.Payment.{
  Order, creator_cut_of, payment_row, insert_purchase, grant, payment_tx, payment_order,
  payment_body, username_of, wallet_pay_video,
}

insert_purchase_succeeds :
    (uid : String) (video : Video) (s : Store)
    → is_some (find_user uid s.users) ≡ true
    → find_video video.id s.videos ≡ some video
    → is_blocked video.owner_id uid s.clock s.blocks ≡ false
    → insert_purchase uid video.id s ≡ some (record s { purchases = (uid, video.id) ∷ s.purchases })
unfolding insert_purchase
insert_purchase_succeeds uid video s known listed free = ground arith

module _ (o : Order) (s : Store) where
  abbrev buyer_new : ℤ
  buyer_new = sub64 (balance_of s.users o.buyer_id) o.video.price_cents

  abbrev creator_new : ℤ
  creator_new = add64 (balance_of s.users o.video.owner_id) o.creator_cut

  abbrev buyer_row : NewTxn
  buyer_row =
      payment_row TxnType.payment o.buyer_id o.video.price_cents buyer_new o.video.owner_id
        (String.◌++◌ "Video purchase: " o.video.id)

  abbrev creator_row : NewTxn
  creator_row =
      payment_row TxnType.transfer_in o.video.owner_id o.creator_cut creator_new o.buyer_id
        (String.◌++◌ "Video sale: " o.video.id)

  -- The tables after the purchase, the allowlist apart.
  abbrev paid : Store
  paid = settled o.buyer_id buyer_new o.video.owner_id creator_new buyer_row creator_row s

  abbrev sold : Store
  sold = record paid { purchases = (o.buyer_id, o.video.id) ∷ paid.purchases }

  payment_tx_commits :
      pos 0 <ℤ o.video.price_cents
      → pos 0 <ℤ o.creator_cut
      → o.video.price_cents ≤ℤ balance_of s.users o.buyer_id
      → is_some (find_user o.buyer_id s.users) ≡ true
      → is_some (find_user o.video.owner_id s.users) ≡ true
      → find_video o.video.id s.videos ≡ some o.video
      → is_blocked o.video.owner_id o.buyer_id s.clock s.blocks ≡ false
      → (allowlist : List (String × String)) × (finish healthy s (payment_tx healthy o s) ≡ (
        access_granted buyer_new o.creator_cut o.video.price_cents,
        record sold { allowlist = allowlist },
      ))
  unfolding finish payment_tx grant settled
  payment_tx_commits priced shared cover known known' listed free =
      let moved =
        settle_succeeds o.buyer_id buyer_new o.video.owner_id creator_new buyer_row creator_row s
          priced shared known known' refl refl refl refl in
      let covered : ltb_ℤ (balance_of s.users o.buyer_id) o.video.price_cents ≡ false =
        ground arith in
      let still = still_user o.buyer_id buyer_new o.video.owner_id creator_new o.buyer_id s.users in
      let bought = insert_purchase_succeeds o.buyer_id o.video paid (still ∙ known) listed free in
      elim (Bool-cases (o.buyer_username == "")) [
        | inl nameless ↦ (s.allowlist, rw covered (rw moved (rw bought (rw nameless refl))))
        | inr named ↦ (
          insert_pair o.video.id o.buyer_username s.allowlist,
          rw covered (rw moved (rw bought (rw named refl))),
        )
      ]

-- Where no statement fails, wallet payments are switched on and the price and the creator's share of
-- it are positive: a user who is there, is not the owner, is not blocked by the owner, has not bought
-- the video yet and has at least its price is answered that access is granted.
pub wallet_pay_video_succeeds :
    (later : Faults) (split_bp : ℕ) (uid video_id : String) (admin : Bool)
    (ref_code : Option String) (s : Store) (video : Video)
    → (load_payment_settings false s.payment_settings).wallet_payment_enabled ≡ true
    → video_id ≢ ""
    → find_video video_id s.videos ≡ some video
    → is_some (find_user video.owner_id s.users) ≡ true
    → is_some (find_user uid s.users) ≡ true
    → video.owner_id ≢ uid
    → pos 0 <ℤ video.price_cents
    → pos 0 <ℤ creator_cut_of video.price_cents split_bp
    → has_pair uid video_id s.purchases ≡ false
    → is_blocked video.owner_id uid s.clock s.blocks ≡ false
    → video.price_cents ≤ℤ balance_of s.users uid
    → (wallet_pay_video healthy later split_bp (some (uid, admin)) video_id ref_code s).0
      ≡ access_granted
          (sub64 (balance_of s.users uid) video.price_cents)
          (creator_cut_of video.price_cents split_bp)
          video.price_cents
unfolding wallet_pay_video payment_body payment_order
wallet_pay_video_succeeds later split_bp uid video_id admin ref_code s video enabled named found
      owner known other priced shared new free cover =
    elim (Option-cases (find_user video.owner_id s.users)) [
      | inl missing ↦ absurd (ground arith)
      | inr (creator, there) ↦
          let o : Order = record {
            buyer_id = uid;
            buyer_username = username_of healthy uid s;
            video = video;
            creator_cut = creator_cut_of video.price_cents split_bp;
          } in
          let same = find_video-id video_id s.videos found in
          let listed : find_video video.id s.videos ≡ some video =
            ap (λ i. find_video i s.videos) same ∙ found in
          let given : (video_id == "") ≡ false = ground (arith, eq_iff video_id "") in
          let apart : (video.owner_id == uid) ≡ false = ground (arith, eq_iff video.owner_id uid) in
          let costs : leb_ℤ video.price_cents (pos 0) ≡ false = ground arith in
          rw enabled (
            rw given (
              rw found (
                rw there (
                  rw apart (
                    rw costs (
                      rw new (
                        ap (λ x. x.0)
                          (payment_tx_commits o s priced shared cover known owner listed
                            free).1)))))))
    ]

-- Where no statement fails: the transaction of an order whose checks were made on earlier tables, with
-- a positive price and a positive share, a buyer and an owner who are there, a video that is listed, a
-- buyer whom the owner has not blocked and whose balance covers the price, charges the buyer, pays the
-- owner and adds a purchase, also where the table of purchases holds one of this video by this buyer
-- by then.
pub stale_order_charges_again :
    (o : Order) (s : Store) (purchases : List (String × String))
    → pos 0 <ℤ o.video.price_cents
    → pos 0 <ℤ o.creator_cut
    → o.video.price_cents ≤ℤ balance_of s.users o.buyer_id
    → is_some (find_user o.buyer_id s.users) ≡ true
    → is_some (find_user o.video.owner_id s.users) ≡ true
    → find_video o.video.id s.videos ≡ some o.video
    → is_blocked o.video.owner_id o.buyer_id s.clock s.blocks ≡ false
    → let s' = record s { purchases = (o.buyer_id, o.video.id) ∷ purchases } in
      let (r, t) = finish healthy s' (payment_tx healthy o s') in
      let buyer_new = sub64 (balance_of s.users o.buyer_id) o.video.price_cents in
      let owner_new = add64 (balance_of s.users o.video.owner_id) o.creator_cut in
      (r ≡ access_granted buyer_new o.creator_cut o.video.price_cents)
      × (t.users
          ≡ set_balance o.video.owner_id owner_new (set_balance o.buyer_id buyer_new s.users))
      × (t.purchases ≡ (o.buyer_id, o.video.id) ∷ (o.buyer_id, o.video.id) ∷ purchases)
unfolding settled
stale_order_charges_again o s purchases priced shared cover known known' listed free =
    let s' = record s { purchases = (o.buyer_id, o.video.id) ∷ purchases } in
    let (allowlist, q) = payment_tx_commits o s' priced shared cover known known' listed free in
    (ap (λ x. x.0) q, ap (λ x. x.1.users) q, ap (λ x. x.1.purchases) q)
