-- ===== src/Affiliate/Link.antt =====
-- A referral link and `process_affiliate_commission` (src/commission.rs).
use ppv_stream_rust.Prelude.{
  String, ◌≡◌, ◌⊎◌, refl, Bool, true, false, Option, some, none, arith, inl, inr, Option-cases,
  Bool-cases, ap, ◌∙◌,
}
use ppv_stream_rust.Prelude.Int.{ℤ, pos}
use ppv_stream_rust.Prelude.Attempt.{done, stopped, Attempt-cases}
use ppv_stream_rust.Text.{trim, trim_start_matches, trim_end_matches, is_whitespace}
use ppv_stream_rust.Tables.{Store, find_username}
use ppv_stream_rust.Transaction.{Faults, Stmt}
use ppv_stream_rust.Wallet.{Session}
use ppv_stream_rust.Commission.{
  Halt, CommissionResult, ok, err, commission_plan, commission_body, process_affiliate_commission,
}
use ppv_stream_rust.Affiliate.{Query, ReferralLink, show_bool, affiliate_link}

-- Where nobody has the name, no commission is planned.
unknown_stops :
    (later : Faults) (video buyer owner : String) (price : ℤ) (name : String) (s : Store)
    → find_username (trim name) s.users ≡ none
    → (commission_plan later video buyer owner price name s ≡ stopped Halt.skip)
      ⊎ ((q : Stmt) × (commission_plan later video buyer owner price name s
            ≡ stopped (Halt.broke q)))
unfolding commission_plan
unknown_stops later video buyer owner price name s unknown =
    elim (Attempt-cases (commission_plan later video buyer owner price name s)) [
      | inl (h, stops) ↦
          elim h as (λ h. commission_plan later video buyer owner price name s ≡ stopped h → _) [
            | Halt.skip ↦ λ e. inl e
            | Halt.broke q ↦ λ e. inr (q, e)
          ]
            stops
      | inr ((aff, cents), goes) ↦ absurd (ground arith)
    ]

-- A commission of nothing, or an error.
abbrev pub IsUnpaid : CommissionResult → Type 0
IsUnpaid r = (r ≡ ok (pos 0)) ⊎ ((q : Stmt) × (r ≡ err q))

unknown-IsUnpaid :
    (later : Faults) (video buyer owner : String) (price : ℤ) (name method : String)
    (invoice : Option String) (s : Store)
    → find_username (trim name) s.users ≡ none
    → let (r, s') =
        process_affiliate_commission later video buyer owner price name method invoice s in
      IsUnpaid r × (s' ≡ s)
unfolding process_affiliate_commission commission_body
unknown-IsUnpaid later video buyer owner price name method invoice s unknown =
    elim (unknown_stops later video buyer owner price name s unknown) [
      | inl skips ↦ rw (process_affiliate_commission, commission_body, skips) (inl refl, refl)
      | inr (q, breaks) ↦
          rw (process_affiliate_commission, commission_body, breaks) (inr (q, refl), refl)
    ]

show_bool-trim : (b : Bool) → trim (show_bool b) ≡ show_bool b
unfolding trim trim_start_matches trim_end_matches is_whitespace
show_bool-trim true = refl
show_bool-trim false = refl

module _ (fails : Query → Bool) (user : Session) (video : String) (s : Store)
    (l : ReferralLink) where
  ref-show_bool :
      affiliate_link fails user video s ≡ done l
      → (uid : String) × (admin : Bool) × (user ≡ some (uid, admin)) × (l.ref ≡ show_bool admin)
  unfolding affiliate_link
  ref-show_bool h = elim (Option-cases user) [
    | inl out ↦ absurd (ground arith)
    | inr ((uid, admin), logged) ↦ (uid, admin, logged, ground arith)
  ]

  -- Where nobody is called "true" or "false": a purchase with the name that a referral link carries pays
  -- no commission, whoever asked for the link, and changes nothing.
  pub affiliate_link_pays_nobody :
      affiliate_link fails user video s ≡ done l
      → find_username "true" s.users ≡ none
      → find_username "false" s.users ≡ none
      → (later : Faults) (buyer owner : String) (price : ℤ) (method : String)
        (invoice : Option String)
      → let (r, s') =
          process_affiliate_commission later video buyer owner price l.ref method invoice s in
        IsUnpaid r × (s' ≡ s)
  affiliate_link_pays_nobody h no_true no_false later buyer owner price method invoice =
      let (uid, admin, logged, ref) = ref-show_bool h in
      let unknown : find_username (show_bool admin) s.users ≡ none = elim (Bool-cases admin) [
        | inl t ↦ rw t no_true
        | inr f ↦ rw f no_false
      ] in
      let nobody : find_username (trim l.ref) s.users ≡ none =
        ap (λ r. find_username (trim r) s.users) ref
        ∙ ap (λ r. find_username r s.users) (show_bool-trim admin)
        ∙ unknown in
      unknown-IsUnpaid later video buyer owner price l.ref method invoice s nobody
