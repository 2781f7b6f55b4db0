-- ===== src/Commission/Keeps.antt =====
-- What `process_affiliate_commission` leaves alone: the rows that decide who may watch.
use ppv_stream_rust.Prelude.{String, ◌≡◌, refl, inl, inr, false, Option, arith, Bool-cases, ◌∙◌}
use ppv_stream_rust.Prelude.Int.{ℤ}
use ppv_stream_rust.Prelude.Attempt.{done, Attempt-cases, >>=-done}
use ppv_stream_rust.Tables.{Store, find_user, set_balance}
use ppv_stream_rust.Tables.Users.{find_user-set_balance}
use ppv_stream_rust.Transaction.{Stmt, Faults, Tx}
use ppv_stream_rust.Wallet.Settle.{settled}
use ppv_stream_rust.Access.Kept.{name_in}
use ppv_stream_rust.Commission.{
  skip, broke, commission_plan, commission_tx, commission_body, process_affiliate_commission,
}
use ppv_stream_rust.Commission.Outcome.{after_settle, commission_tx-done}

-- Who is listed under which name, and what is bought and allowed, is the same.
pub record KeepsRights (s s' : Store) : Type 0 where
  pub allowlist : s'.allowlist ≡ s.allowlist
  pub purchases : s'.purchases ≡ s.purchases
  pub paid_fiat : s'.paid_fiat ≡ s.paid_fiat
  pub names : (j : String) → name_in (find_user j s'.users) ≡ name_in (find_user j s.users)

pub KeepsRights-refl : (s : Store) → KeepsRights s s
KeepsRights-refl s = record {
  allowlist = refl;
  purchases = refl;
  paid_fiat = refl;
  names = λ j. refl;
}

name_in-set_balance :
    (j id : String) (v : ℤ) (s : Store)
    → name_in (find_user j (set_balance id v s.users)) ≡ name_in (find_user j s.users)
name_in-set_balance j id v s = ground (arith, find_user-set_balance j id v s.users)

after_settle-KeepsRights :
    (video owner aff : String) (cents : ℤ) (s : Store)
    → KeepsRights s (after_settle video owner aff cents s)
unfolding after_settle settled
after_settle-KeepsRights video owner aff cents s = record {
  allowlist = refl;
  purchases = refl;
  paid_fiat = refl;
  names = λ j.
      let payer = name_in-set_balance j owner _ s in
      let payee = name_in-set_balance j aff _ (record s { users = set_balance owner _ s.users }) in
      payee ∙ payer;
}

module _ (fails : Faults) (video buyer owner : String) (price : ℤ) (name method : String)
    (invoice : Option String) (s : Store) where
  body-KeepsRights :
      {tx : Tx} {cents : ℤ}
      → commission_body fails video buyer owner price name method invoice s ≡ done (tx, cents)
      → (tx.aborted ≡ false) × KeepsRights s tx.store
  unfolding commission_body
  body-KeepsRights {tx} {cents} e =
      let ((id, cents'), planned, rest) =
        >>=-done (commission_plan fails video buyer owner price name s) _ e in
      let (tx', ran, ended) =
        >>=-done (commission_tx fails video buyer owner id price cents' method invoice s) _ rest in
      let (clean, left, cover, least, payer, payee) =
        commission_tx-done fails video buyer owner id price cents' method invoice s ran in
      let same : tx' ≡ tx = ground arith in
      let kept = after_settle-KeepsRights video owner id cents' s in
      (
        rw (← same) clean,
        rw (← same, left)
            (record {
              allowlist = kept.allowlist;
              purchases = kept.purchases;
              paid_fiat = kept.paid_fiat;
              names = kept.names;
            }),
      )

  pub process_affiliate_commission-KeepsRights :
      KeepsRights s
        (process_affiliate_commission fails video buyer owner price name method invoice s).1
  unfolding process_affiliate_commission
  process_affiliate_commission-KeepsRights =
      elim (Attempt-cases (commission_body fails video buyer owner price name method invoice s)) [
        | inl (skip, e) ↦ rw (e, process_affiliate_commission) (KeepsRights-refl s)
        | inl (broke q, e) ↦ rw (e, process_affiliate_commission) (KeepsRights-refl s)
        | inr ((tx, cents), e) ↦
            let (clean, kept) = body-KeepsRights e in
            elim (Bool-cases (fails Stmt.commit)) [
              | inl lost ↦ rw (e, lost, process_affiliate_commission) (KeepsRights-refl s)
              | inr through ↦ rw (e, through, clean, process_affiliate_commission) kept
            ]
      ]
