-- ===== src/Wallet/Rounds.antt =====
-- A withdrawal and its refusal, one after the other.
use ppv_stream_rust.Prelude.{
  ℕ, String, ◌≡◌, refl, inl, inr, true, Option, some, arith, is_some, ◌∙◌, sym, ap, eq_iff, ◌^◌,
}
use ppv_stream_rust.Prelude.Int.{ℤ, pos, ◌+ℤ◌, ◌≤ℤ◌, ◌<ℤ◌, int_laws}
use ppv_stream_rust.Prelude.Word.{fits_i64}
use ppv_stream_rust.Tables.{Store, Txn, TxnType, Status, find_txn, find_user, balance_of, credit}
use ppv_stream_rust.Tables.Ledger.{owner_known}
use ppv_stream_rust.Tables.Nonneg.{balance-le-total, balance_nonneg}
use ppv_stream_rust.Tables.Total.{total}
use ppv_stream_rust.Tables.Sound.{IsSound, HasRoom}
use ppv_stream_rust.Transaction.{healthy}
use ppv_stream_rust.Wallet.{
  Session, Error, Reply, failed, finish, withdrawal_submitted, txn_rejected,
}
use ppv_stream_rust.Wallet.Requests.{wallet_withdraw}
use ppv_stream_rust.Wallet.Requests.Withdraw.{Withdrawn, wallet_withdraw_cases}
use ppv_stream_rust.Wallet.Admin.{ensure_admin_session, reject_body, admin_wallet_reject}
use ppv_stream_rust.Wallet.Admin.Reject.{Refunded, admin_wallet_reject_refunds}

-- With no failing statement, a pending withdrawal whose refund fits is refunded.
reject_succeeds :
    (admin : String) (txn_id : ℕ) (memo : Option String) (s : Store) (row : Txn)
    → find_txn txn_id s.txns ≡ some row
    → row.status ≡ Status.pending
    → row.txn_type ≡ TxnType.withdrawal
    → is_some (find_user row.user_id s.users) ≡ true
    → fits_i64 (balance_of s.users row.user_id +ℤ row.amount_cents) ≡ true
    → (admin_wallet_reject healthy (some (admin, true)) txn_id memo s).0 ≡ txn_rejected true
unfolding admin_wallet_reject ensure_admin_session reject_body finish credit
reject_succeeds admin txn_id memo s row found p k known fits =
    rw found (rw (p, k) (rw (known, fits) refl))

fits_in_room : (b t : ℤ) → pos 0 ≤ℤ b → b ≤ℤ t → t <ℤ pos (2 ^ 63) → fits_i64 b ≡ true
fits_in_room b t p q r = ground arith

refused_and_rejected : (e : Error) {r : Reply} → r ≡ failed e → r ≡ txn_rejected true → ⊥
refused_and_rejected e p q = cc

found_once : {o : Option Txn} {t u : Txn} → o ≡ some t → o ≡ some u → t ≡ u
found_once p q = cc

-- One balance after a withdrawal request and its rejection.
undone :
    (uid j : String) {amount : ℤ} {n : ℕ} {session : Session} {r : Reply} (s t s' : Store)
    (w : Withdrawn uid amount s t) (back : Refunded session n t r s')
    → w.row ≡ back.row
    → balance_of s'.users j ≡ balance_of s.users j
undone uid j s t s' w back same =
    let owner : back.row.user_id ≡ uid = ap (λ x. x.user_id) (sym same) ∙ w.owner in
    let kind : back.row.txn_type ≡ TxnType.withdrawal = ap (λ x. x.txn_type) (sym same) ∙ w.kind in
    let asked = ap (λ x. x.amount_cents) (sym same) ∙ w.asked in
    let moved = back.balance j in
    let moved' = rw (owner, kind, asked) at moved in grind (int_laws, moved', w.balance j)

module _ (session : Session) (amount : ℤ) (memo reason : Option String) (admin : String) (s : Store)
    (h : IsSound s) (room : HasRoom s) (n : ℕ) (left : ℤ) where
  abbrev asked : Store
  asked = (wallet_withdraw healthy session amount memo s).1

  withdrawn :
      (wallet_withdraw healthy session amount memo s).0 ≡ withdrawal_submitted n left
      → (uid : String) × (n ≡ s.next_txn)
        × (amount ≤ℤ balance_of s.users uid)
        × Withdrawn uid amount s asked
  withdrawn won = elim (wallet_withdraw_cases healthy session amount memo s h room) [
    | inl (e, lost, same) ↦ absurd cc
    | inr (uid, adm, user, least, cover, answer, inl (kept, w)) ↦ (uid, ground arith, cover, w)
    | inr (uid, adm, user, least, cover, answer, inr (lost, same)) ↦ absurd (ground arith)
  ]

  -- Over tables that satisfy the wallet's invariant and hold less than 2 ^ 63 cents in all, where no
  -- statement fails: after a withdrawal request that was accepted, an administrator's rejection of its
  -- row succeeds, and then every user has the balance from before the request.
  pub withdraw-reject_restores :
      (wallet_withdraw healthy session amount memo s).0 ≡ withdrawal_submitted n left
      → let (r, s') = admin_wallet_reject healthy (some (admin, true)) n reason asked in
        (r ≡ txn_rejected true) × ((j : String) → balance_of s'.users j ≡ balance_of s.users j)
  withdraw-reject_restores won =
      let (uid, same, cover, w) = withdrawn won in
      let found : find_txn n (asked).txns ≡ some w.row = rw same w.listed in
      let known = owner_known n (asked).users (asked).txns found w.sound.owned in
      let whole : balance_of (asked).users uid +ℤ amount ≡ balance_of s.users uid =
        grind (int_laws, w.balance uid, eq_iff uid uid) in
      let fits : fits_i64 (balance_of (asked).users w.row.user_id +ℤ w.row.amount_cents) ≡ true =
        rw (w.owner, w.asked)
          (rw whole (
            fits_in_room (balance_of s.users uid) (total s.users)
              (balance_nonneg uid s.users h.nonneg) (balance-le-total uid s.users h.nonneg)
              room)) in
      let ok = reject_succeeds admin n reason asked w.row found w.pending w.kind known fits in
      (
        ok,
        elim (admin_wallet_reject_refunds healthy (some (admin, true)) n reason asked w.sound) [
          | inl (e, lost, same') ↦ absurd (refused_and_rejected e lost ok)
          | inr back ↦ λ j. undone uid j s asked _ w back (found_once found back.found)
        ],
      )
