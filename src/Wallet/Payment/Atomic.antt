-- ===== src/Wallet/Payment/Atomic.antt =====
-- `wallet_pay_video` as a whole: its answer and the tables it leaves.
use Prim.Native.String
use ppv_stream_rust.Prelude.{
  ℕ, String, ◌≡◌, refl, ◌≢◌, ◌⊎◌, inl, inr, true, false, Option, none, some, is_some, arith, ◌==◌,
  ◌*◌, ◌/◌, ◌≤◌, ◌<◌, ◌^◌, sym, Bool-cases,
}
use ppv_stream_rust.Prelude.Int.{ℤ, pos, negsuc, ◌≤ℤ◌, ◌<ℤ◌, ◌-ℤ◌, int_laws}
use ppv_stream_rust.Prelude.Word.{add64, sub64}
use ppv_stream_rust.Prelude.Fraction.{mul-le_of_share}
use ppv_stream_rust.Prelude.Attempt.{done, stopped, Attempt, >>=-done}
use ppv_stream_rust.Tables.{Store, TxnType, find_user, balance_of, has_pair}
use ppv_stream_rust.Tables.Nonneg.{balance-le-total}
use ppv_stream_rust.Tables.Sound.{IsSound, HasRoom}
use ppv_stream_rust.Transaction.{Faults}
use ppv_stream_rust.Commission.Atomic.{Commissioned, process_affiliate_commission_atomic}
use ppv_stream_rust.Wallet.{Session, Error, Reply, failed, access_granted, finish}
use ppv_stream_rust.Wallet.Finish.{finish_cases}
use ppv_stream_rust.Wallet.Settle.Pays.{Paid, Paid-kept, IsDeal, payer_exact, deal-Paid}
use ppv_stream_rust.Wallet.Payment.{
  owner_blocks, Order, payment_row, payment_order, payment_body, payment_tx, after_payment,
  wallet_pay_video,
}
use ppv_stream_rust.Wallet.Payment.Split.{creator_cut_exact}
use ppv_stream_rust.Wallet.Payment.Checks.{Checked, payment_order-done}
use ppv_stream_rust.Wallet.Payment.Outcome.{Written, after_settle, payment_tx-done, has_pair-cons}

-- The purchase of order `o`, answered by `r`, that left the tables `t`: `price` and `cut` are the
-- price in cents and the creator's share of it.
pub record Bought (split_bp : ℕ) (o : Order) (s : Store) (r : Reply) (t : Store) : Type 0 where
  pub price : ℕ
  pub priced : o.video.price_cents ≡ pos price
  pub cut : o.creator_cut ≡ pos (price * split_bp / 10000)
  pub paid : Paid o.buyer_id o.video.owner_id (pos price) (pos (price * split_bp / 10000)) s t
  pub known : is_some (find_user o.buyer_id s.users) ≡ true
  pub least : pos 0 <ℤ o.creator_cut
  pub unblocked : owner_blocks o.buyer_id o.video.id s ≡ false
  pub purchased : has_pair o.buyer_id o.video.id t.purchases ≡ true
  pub allowed : (o.buyer_username ≢ "") → has_pair o.video.id o.buyer_username t.allowlist ≡ true
  pub answer :
      r
      ≡ access_granted
          (balance_of s.users o.buyer_id -ℤ pos price)
          (pos (price * split_bp / 10000))
          (pos price)

positive : (z : ℤ) → pos 0 <ℤ z → (n : ℕ) × (z ≡ pos n)
positive (pos n) h = (n, refl)
positive (negsuc n) h = absurd (omega arith)

module _ (split_bp : ℕ) (most : split_bp ≤ 10000) (o : Order) (s : Store) (h : IsSound s)
    (room : HasRoom s) where
  Written-Bought :
      {fails : Faults} {session : Session} {video_id : String} {r : Reply} {t : Store}
      → Checked fails split_bp session video_id s o
      → Written o s r t
      → Bought split_bp o s r t
  Written-Bought {t} c w =
      let (price, priced) = positive o.video.price_cents c.priced in
      let below : price < 2 ^ 63 =
        grind (int_laws, w.cover, priced, room, balance-le-total o.buyer_id s.users h.nonneg) in
      let cut : o.creator_cut ≡ pos (price * split_bp / 10000) =
        rw (c.share, priced) (creator_cut_exact price split_bp below most) in
      let share : o.creator_cut ≤ℤ o.video.price_cents =
        rw (cut, priced) (omega (arith, mul-le_of_share price split_bp 10000 most)) in
      let buyer_new = sub64 (balance_of s.users o.buyer_id) o.video.price_cents in
      let creator_new = add64 (balance_of s.users o.video.owner_id) o.creator_cut in
      let out =
        payment_row TxnType.payment o.buyer_id o.video.price_cents buyer_new o.video.owner_id
          (String.◌++◌ "Video purchase: " o.video.id) in
      let in' =
        payment_row TxnType.transfer_in o.video.owner_id o.creator_cut creator_new o.buyer_id
          (String.◌++◌ "Video sale: " o.video.id) in
      let d : IsDeal o.buyer_id o.video.owner_id out in' s = record {
        sound = h;
        room = room;
        distinct = λ p. c.other (sym p);
        payer_known = w.buyer_known;
        payee_known = w.owner_known;
        out_user = refl;
        in_user = refl;
        out_sign = refl;
        in_sign = refl;
        least = omega (arith, w.least);
        share = share;
        cover = w.cover;
      } in
      let paid : Paid o.buyer_id o.video.owner_id o.video.price_cents o.creator_cut s
          (after_settle o s) =
        unfold after_settle in deal-Paid o.buyer_id o.video.owner_id out in' s d in
      record {
        price = price;
        priced = priced;
        cut = cut;
        paid =
            rw (← cut, ← priced)
              (Paid-kept o.buyer_id o.video.owner_id o.video.price_cents o.creator_cut t w.users
                w.txns w.next_txn paid);
        known = w.buyer_known;
        least = w.least;
        unblocked = w.unblocked;
        purchased = rw w.purchases (has_pair-cons o.buyer_id o.video.id s.purchases);
        allowed = w.allowed;
        answer =
            rw (← cut, ← priced)
              (rw (← payer_exact o.buyer_id o.video.owner_id out in' s d) w.answer);
      }

  -- What a purchase leaves has room still.
  Bought-HasRoom : {r : Reply} {t : Store} → Bought split_bp o s r t → HasRoom t
  Bought-HasRoom b =
      grind (int_laws, b.paid.total_moves, room, mul-le_of_share b.price split_bp 10000 most)

  -- What follows a purchase: nothing, or a commission.
  after_payment-cases :
      (later : Faults) (ref_code : Option String) {r : Reply} {t : Store}
      → Bought split_bp o s r t
      → (after_payment later ref_code (done o) r t ≡ t)
        ⊎ ((name : String) × (cents : ℤ) × Commissioned o.video.id o.buyer_id o.video.owner_id
              o.video.price_cents name "wallet" none t cents
              (after_payment later ref_code (done o) r t))
  unfolding after_payment
  after_payment-cases later none {t} b = inl (rw b.answer)
  after_payment-cases later (some name) {t} b = elim (Bool-cases (name == "")) [
    | inl empty ↦ inl (rw (b.answer, empty))
    | inr named ↦
        elim (process_affiliate_commission_atomic later o.video.id o.buyer_id o.video.owner_id
          o.video.price_cents name "wallet" none t b.paid.sound (Bought-HasRoom b)) [
            | inl (q, e, same) ↦ inl (rw (b.answer, named) same)
            | inr (inl (e, same)) ↦ inl (rw (b.answer, named) same)
            | inr (inr (cents, e, c)) ↦ inr (name, cents, rw (b.answer, named) c)
          ]
  ]

after_payment-failed :
    (later : Faults) (ref_code : Option String) (order : Attempt Error Order) (e : Error)
    (s : Store)
    → after_payment later ref_code order (failed e) s ≡ s
unfolding after_payment
after_payment-failed later ref_code (stopped d) e s = refl
after_payment-failed later ref_code (done o) e s = refl

module _ (fails later : Faults) (split_bp : ℕ) (most : split_bp ≤ 10000) (session : Session)
    (video_id : String) (ref_code : Option String) (s : Store) (h : IsSound s)
    (room : HasRoom s) where
  -- Over tables that satisfy the wallet's invariant and hold less than 2 ^ 63 cents in all, with a
  -- creator's split of at most 10000 basis points and whatever statements fail: `wallet_pay_video`
  -- either answers an error and changes nothing; or its buyer is logged in and is not the owner, the
  -- video has a positive price, and the buyer has lost the price, the owner has gained
  -- price * split / 10000 (rounded down), no other balance has changed, the owner had not blocked the buyer, the purchase is recorded, a
  -- known username is on the allowlist and the invariant holds; and after that either nothing more
  -- happened or one affiliate commission was paid.
  pub wallet_pay_video_atomic :
      let (r, s') = wallet_pay_video fails later split_bp session video_id ref_code s in
      ((e : Error) × (r ≡ failed e) × (s' ≡ s))
      ⊎ ((o : Order) × (t : Store) × Checked fails split_bp session video_id s o
          × Bought split_bp o s r t
          × ((s' ≡ t)
              ⊎ ((name : String) × (cents : ℤ) × Commissioned o.video.id o.buyer_id o.video.owner_id
                    o.video.price_cents name "wallet" none t cents s')))
  unfolding wallet_pay_video payment_body
  wallet_pay_video_atomic =
      let order = payment_order fails split_bp session video_id s in
      elim (finish_cases fails s (payment_body fails order s)) [
        | inl (e, q) ↦ inl (e, rw q, rw q (after_payment-failed later ref_code order e s))
        | inr (tx, r, ran, q) ↦
            let (o, checked, paid) = >>=-done order (λ o. payment_tx fails o s) ran in
            let (clean, written) = payment_tx-done fails o s paid in
            let c = payment_order-done fails split_bp session video_id s checked in
            let b : Bought split_bp o s r tx.store =
              Written-Bought split_bp most o s h room c written in
            let left : finish fails s (payment_body fails order s) ≡ (r, tx.store) =
              rw clean at q in
            inr (
              o,
              tx.store,
              c,
              rw left b,
              rw (left, checked) (after_payment-cases split_bp most o s h room later ref_code b),
            )
      ]
