-- ===== src/X402/Confirm/Access.antt =====
-- Who may watch after `x402_confirm`.
use ppv_stream_rust.Prelude.{
  ℕ, String, ◌≡◌, ◌≢◌, ◌⊎◌, inl, inr, Bool, true, false, some, arith, or_else, ltb, Bool-cases,
  Option-cases, eq_iff, ◌==◌, ◌||◌, ◌∙◌, ap,
}
use ppv_stream_rust.Prelude.Attempt.{done, Attempt-cases}
use ppv_stream_rust.Tables.{Store, User, find_user, has_pair}
use ppv_stream_rust.Transaction.{Faults}
use ppv_stream_rust.Access.{user_has_view_access}
use ppv_stream_rust.Access.Cases.{answered}
use ppv_stream_rust.Access.Kept.{kept_rights}
use ppv_stream_rust.Unlock.Rights.{try_purchase-users}
use ppv_stream_rust.Commission.Keeps.{
  KeepsRights, KeepsRights-refl, process_affiliate_commission-KeepsRights,
}
use ppv_stream_rust.Wallet.Payment.{insert_purchase, owner_blocks}
use ppv_stream_rust.Wallet.Payment.Outcome.{has_pair-insert_pair}
use ppv_stream_rust.Unlock.{try_purchase, try_allow}
use ppv_stream_rust.X402.Confirm.Proof.{verified-IsPaidOnChain}
use ppv_stream_rust.X402.{InvoiceStatus, Invoice, Books, Query, find_invoice}
use ppv_stream_rust.X402.Chain.{World}
use ppv_stream_rust.X402.Confirm.{
  required_of, confirmed, verified, mark_invoice, unlock, pay_affiliate, settle_invoice,
  x402_confirm,
}

pay_affiliate-KeepsRights :
    (fails : Query → Bool) (later : Faults) (uid : String) (i : Invoice) (s : Books)
    → KeepsRights s.main (pay_affiliate fails later uid i s).main
unfolding pay_affiliate
pay_affiliate-KeepsRights fails later uid i s = elim (Option-cases (find_invoice uid s.invoices)) [
  | inl missing ↦ rw (missing, pay_affiliate) (KeepsRights-refl s.main)
  | inr (row, e) ↦
      elim (Bool-cases (
        fails Query.select_ref || fails Query.select_extra || or_else row.affiliate_ref "" == "")) [
          | inl skips ↦ rw (e, skips, pay_affiliate) (KeepsRights-refl s.main)
          | inr go ↦
              rw (e, go, pay_affiliate)
                (process_affiliate_commission-KeepsRights later _ _ _ _ _ _ _ s.main)
        ]
]

-- A known name is on the list of the video when `unlock` has run.
unlock-allows :
    (fails : Query → Bool) (user video : String) (s : Store) (u : User)
    → find_user user s.users ≡ some u
    → u.username ≢ ""
    → fails Query.select_name ≡ false
    → fails Query.insert_allow ≡ false
    → (find_user user (unlock fails user video s).users ≡ some u)
      × (has_pair video u.username (unlock fails user video s).allowlist ≡ true)
unfolding unlock try_allow
unlock-allows fails user video s u known named read written =
    let t = try_purchase (fails Query.insert_purchase) user video s in
    let people : t.users ≡ s.users =
      try_purchase-users (fails Query.insert_purchase) user video s in
    let still : find_user user t.users ≡ some u = rw people known in
    (
      ground (arith, eq_iff u.username "", still),
      ground
          (arith, eq_iff u.username "", still, has_pair-insert_pair video u.username t.allowlist),
    )

unlock-purchases :
    (fails : Query → Bool) (user video : String) (s : Store)
    → (owner_blocks user video s ≡ false) ⊎ ((unlock fails user video s).purchases ≡ s.purchases)
unfolding unlock try_purchase try_allow insert_purchase
unlock-purchases fails user video s = elim (Bool-cases (owner_blocks user video s)) [
  | inl blocked ↦ inr (ground arith)
  | inr free ↦ inl free
]

mark_invoice-main :
    (fails : Query → Bool) (status : InvoiceStatus) (tx : String) (amount : ℕ) (i : Invoice)
    (s : Books)
    → (mark_invoice fails status tx amount i s).main ≡ s.main
unfolding mark_invoice
mark_invoice-main fails status tx amount i s = ground arith

settle_invoice-unlocks :
    (fails : Query → Bool) (later : Faults) (uid tx : String) (i : Invoice) (amount : ℕ) (s : Books)
    (u : User)
    → (settle_invoice fails later uid tx i amount s).0 ≡ confirmed
    → find_user i.user_id s.main.users ≡ some u
    → u.username ≢ ""
    → fails Query.select_name ≡ false
    → fails Query.insert_allow ≡ false
    → let after = (settle_invoice fails later uid tx i amount s).1.main in
      (user_has_view_access answered i.video_id i.user_id after ≡ true)
      × ((owner_blocks i.user_id i.video_id s.main ≡ false) ⊎ (after.purchases ≡ s.main.purchases))
unfolding settle_invoice
settle_invoice-unlocks fails later uid tx i amount s u won known named read written =
    let s1 = mark_invoice fails InvoiceStatus.paid tx amount i s in
    let same : s1.main ≡ s.main = mark_invoice-main fails InvoiceStatus.paid tx amount i s in
    let t = unlock fails i.user_id i.video_id s1.main in
    let k = pay_affiliate-KeepsRights fails later uid i (record s1 { main = t }) in
    let known1 : find_user i.user_id s1.main.users ≡ some u = rw same known in
    let (still, listed) =
      unlock-allows fails i.user_id i.video_id s1.main u known1 named read written in
    let watches =
      kept_rights i.video_id i.user_id t
        (pay_affiliate fails later uid i (record s1 { main = t })).main u k.names k.allowlist still
        listed in
    let bought = unlock-purchases fails i.user_id i.video_id s1.main in
    elim (Bool-cases (ltb amount (required_of i))) [
      | inl short ↦ absurd (ground arith)
      | inr enough ↦ (
        rw enough watches,
        rw enough (elim bought [
          | inl free ↦ inl (rw (← same) free)
          | inr alike ↦ inr (k.purchases ∙ alike ∙ ap (λ (x : Store). x.purchases) same)
        ]),
      )
    ]

-- What was verified is settled.
pub x402_confirm-eq_settle_invoice :
    (w : World) (fails : Query → Bool) (later : Faults) (uid tx : String) (s : Books) (i : Invoice)
    (amount : ℕ)
    → verified w fails uid tx s ≡ done (i, amount)
    → x402_confirm w fails later uid tx s ≡ settle_invoice fails later uid tx i amount s
unfolding x402_confirm
x402_confirm-eq_settle_invoice w fails later uid tx s i amount e = rw (e, x402_confirm)

-- If a payment is confirmed, the query for the buyer's name and the insertion into the allowlist do not
-- fail, and the buyer has a name, then the buyer may watch the video, whatever other statements fail.
-- Unless the video's owner has not blocked the buyer, no purchase is recorded: a buyer who is blocked
-- may watch all the same.
pub x402_confirm_unlocks :
    (w : World) (fails : Query → Bool) (later : Faults) (uid tx : String) (s : Books) (i : Invoice)
    (u : User)
    → (x402_confirm w fails later uid tx s).0 ≡ confirmed
    → find_invoice uid s.invoices ≡ some i
    → find_user i.user_id s.main.users ≡ some u
    → u.username ≢ ""
    → fails Query.select_name ≡ false
    → fails Query.insert_allow ≡ false
    → let after = (x402_confirm w fails later uid tx s).1.main in
      (user_has_view_access answered i.video_id i.user_id after ≡ true)
      × ((owner_blocks i.user_id i.video_id s.main ≡ false) ⊎ (after.purchases ≡ s.main.purchases))
x402_confirm_unlocks w fails later uid tx s i u won listed known named read written =
    elim (Attempt-cases (verified w fails uid tx s)) [
      | inl (r, e) ↦ absurd (unfold x402_confirm in ground arith)
      | inr ((j, amount), e) ↦
          let (found, unpaid, shown) = verified-IsPaidOnChain w fails uid tx s e in
          let same : j ≡ i = ground arith in
          let settles : x402_confirm w fails later uid tx s
              ≡ settle_invoice fails later uid tx i amount s =
            x402_confirm-eq_settle_invoice w fails later uid tx s i amount (rw (← same) e) in
          rw settles (
            settle_invoice-unlocks fails later uid tx i amount s u (rw settles at won) known named
              read written)
    ]
