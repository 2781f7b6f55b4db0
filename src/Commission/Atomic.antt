-- ===== src/Commission/Atomic.antt =====
-- `process_affiliate_commission` as a whole.
use ppv_stream_rust.Prelude.{
  String, ◌≡◌, refl, ◌≢◌, ◌⊎◌, inl, inr, true, false, Option, some, ◌∷◌, arith, eq_iff, Bool-cases,
  Option-cases, sym, ◌∙◌,
}
use Prim.Native.String
use ppv_stream_rust.Prelude.Int.{ℤ, pos}
use ppv_stream_rust.Prelude.Word.{add64, sub64}
use ppv_stream_rust.Prelude.Attempt.{done, Attempt-cases, >>=-done}
use ppv_stream_rust.Text.{trim}
use ppv_stream_rust.Tables.{
  Store, User, AffiliateSettings, TxnType, find_username, find_settings, balance_of,
}
use ppv_stream_rust.Tables.Sound.{IsSound, HasRoom}
use ppv_stream_rust.Transaction.{Stmt, Faults, Tx}
use ppv_stream_rust.Wallet.Settle.{settled}
use ppv_stream_rust.Wallet.Settle.Pays.{Paid, Paid-kept, IsDeal, deal-Paid}
use ppv_stream_rust.Commission.{
  ok, err, skip, broke, commission_of, commission_row, commission_plan, commission_tx,
  commission_body, process_affiliate_commission,
}
use ppv_stream_rust.Commission.Outcome.{after_settle, audit, commission_tx-done}

-- A commission of `cents` that was paid and left `s'`.
pub record Commissioned (video buyer owner : String) (price : ℤ) (name method : String)
    (invoice : Option String) (s : Store) (cents : ℤ) (s' : Store) : Type 0 where
  pub settings : AffiliateSettings
  pub aff : User
  pub configured : find_settings video s.affiliate_settings ≡ some settings
  pub enabled : settings.is_enabled ≡ true
  pub found : find_username (trim name) s.users ≡ some aff
  pub not_buyer : aff.id ≢ buyer
  pub not_owner : aff.id ≢ owner
  pub amount : cents ≡ commission_of price settings.commission_pct
  pub moved : Paid owner aff.id cents cents s s'
  pub same_purchases : s'.purchases ≡ s.purchases
  pub recorded :
      s'.commissions ≡ audit video buyer owner aff.id price cents method invoice ∷ s.commissions

module _ (fails : Faults) (video buyer owner : String) (price : ℤ) (name method : String)
    (invoice : Option String) (s : Store) where
  -- The guards that a commission has passed when its transaction runs.
  plan-done :
      {id : String} {cents : ℤ}
      → commission_plan fails video buyer owner price name s ≡ done (id, cents)
      → (settings : AffiliateSettings) × (aff : User) × (find_settings video s.affiliate_settings
          ≡ some settings)
        × (settings.is_enabled ≡ true)
        × (find_username (trim name) s.users ≡ some aff)
        × (aff.id ≢ buyer)
        × (aff.id ≢ owner)
        × (cents ≡ commission_of price settings.commission_pct)
        × (id ≡ aff.id)
  unfolding commission_plan
  plan-done h = elim (Option-cases (find_settings video s.affiliate_settings)) [
    | inl missing ↦ absurd (ground arith)
    | inr (settings, e) ↦ elim (Option-cases (find_username (trim name) s.users)) [
      | inl unknown ↦ absurd (ground arith)
      | inr (aff, f) ↦ (
        settings,
        aff,
        e,
        ground arith,
        f,
        ground (arith, eq_iff aff.id buyer),
        ground (arith, eq_iff aff.id owner),
        ground arith,
        ground arith,
      )
    ]
  ]

  module _ (h : IsSound s) (room : HasRoom s) where
    commissioned :
        {tx : Tx} {cents : ℤ}
        → commission_body fails video buyer owner price name method invoice s ≡ done (tx, cents)
        → (tx.aborted ≡ false)
          × Commissioned video buyer owner price name method invoice s cents tx.store
    unfolding commission_body
    commissioned {tx} {cents} e =
        let ((id, cents'), planned, rest) =
          >>=-done (commission_plan fails video buyer owner price name s) _ e in
        let (settings, aff, configured, enabled, found, not_buyer, not_owner, amount, same) =
          plan-done planned in
        let (tx', ran, ended) =
          >>=-done (commission_tx fails video buyer owner id price cents' method invoice s) _
            rest in
        let (clean, left, cover, least, payer, payee) =
          commission_tx-done fails video buyer owner id price cents' method invoice s ran in
        let same_tx : tx' ≡ tx = ground arith in
        let same_cents : cents' ≡ cents = ground arith in
        let creator_new = sub64 (balance_of s.users owner) cents' in
        let aff_new = add64 (balance_of s.users id) cents' in
        let out =
          commission_row TxnType.transfer_out owner cents' creator_new id
            (String.◌++◌ "Affiliate commission: " video) in
        let in' =
          commission_row TxnType.transfer_in id cents' aff_new owner
            (String.◌++◌ "Commission earned: " video) in
        let d : IsDeal owner id out in' s = record {
          sound = h;
          room = room;
          distinct = λ p. not_owner (sym (p ∙ same));
          payer_known = payer;
          payee_known = payee;
          out_user = refl;
          in_user = refl;
          out_sign = refl;
          in_sign = refl;
          least = omega arith;
          share = omega arith;
          cover = cover;
        } in
        let paid : Paid owner id cents' cents' s (after_settle video owner id cents' s) =
          unfold after_settle in deal-Paid owner id out in' s d in
        (
          rw (← same_tx) clean,
          record {
            settings = settings;
            aff = aff;
            configured = configured;
            enabled = enabled;
            found = found;
            not_buyer = not_buyer;
            not_owner = not_owner;
            amount = rw (← same_cents) amount;
            moved =
                rw (← same, ← same_cents, ← same_tx, left)
                  (Paid-kept owner id cents' cents' _ refl refl refl paid);
            same_purchases = rw (← same_tx, left) (unfold after_settle settled in refl);
            recorded =
                rw (← same, ← same_cents, ← same_tx, left) (unfold after_settle settled in refl);
          },
        )

  -- Over tables that satisfy the wallet's invariant and hold less than 2 ^ 63 cents in all, whatever
  -- statements fail: an error changes nothing, and so does an answer `Ok(0)`; any other answer is the
  -- commission, paid from the creator's balance to that of a user who is neither the buyer nor the
  -- creator, with the audit row written and the invariant kept.
  pub process_affiliate_commission_atomic :
      IsSound s
      → HasRoom s
      → let (r, s') =
          process_affiliate_commission fails video buyer owner price name method invoice s in
        ((q : Stmt) × (r ≡ err q) × (s' ≡ s))
        ⊎ ((r ≡ ok (pos 0)) × (s' ≡ s))
        ⊎ ((cents : ℤ) × (r ≡ ok cents)
            × Commissioned video buyer owner price name method invoice s cents s')
  unfolding process_affiliate_commission
  process_affiliate_commission_atomic h room =
      elim (Attempt-cases (commission_body fails video buyer owner price name method invoice s)) [
        | inl (skip, e) ↦ inr (inl (ground arith, ground arith))
        | inl (broke q, e) ↦ inl (q, ground arith, ground arith)
        | inr ((tx, cents), e) ↦ elim (Bool-cases (fails Stmt.commit)) [
          | inl lost ↦ inl (Stmt.commit, ground arith, ground arith)
          | inr kept ↦
              let (clean, all) = commissioned h room e in
              let left : process_affiliate_commission fails video buyer owner price name method
                    invoice s
                  ≡ (ok cents, tx.store) =
                ground arith in
              inr (inr (cents, rw left refl, rw left all))
        ]
      ]
