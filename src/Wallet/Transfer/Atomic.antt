-- ===== src/Wallet/Transfer/Atomic.antt =====
-- `wallet_transfer` as a whole: its answer and the tables it leaves.
use ppv_stream_rust.Prelude.{
  String, ◌≡◌, refl, ◌≢◌, ◌⊎◌, inl, inr, false, Bool, Option, none, some, arith, eq_iff,
  Option-cases, sym,
}
use ppv_stream_rust.Prelude.Int.{ℤ, pos, ◌≤ℤ◌, ◌-ℤ◌}
use ppv_stream_rust.Prelude.Word.{add64, sub64}
use ppv_stream_rust.Prelude.Attempt.{done}
use ppv_stream_rust.Text.{trim}
use ppv_stream_rust.Tables.{Store, User, TxnType, find_username, balance_of}
use ppv_stream_rust.Tables.Sound.{IsSound, HasRoom}
use ppv_stream_rust.Transaction.{Faults, Tx}
use ppv_stream_rust.Wallet.{Session, Error, Reply, failed, transferred}
use ppv_stream_rust.Wallet.Settle.Pays.{Paid, IsDeal, payer_exact, deal-Paid}
use ppv_stream_rust.Wallet.Finish.{finish_cases}
use ppv_stream_rust.Wallet.Transfer.{transfer_tx, transfer_body, wallet_transfer, transfer_row}
use ppv_stream_rust.Wallet.Transfer.Outcome.{transfer_tx-done, after_transfer}

-- A transfer of `session` to the user named `to` that was answered by `r` and left `s'`.
pub record Sent (session : Session) (to : String) (amount : ℤ) (s : Store) (r : Reply) (s' : Store)
    : Type 0 where
  pub uid : String
  pub admin : Bool
  pub recip : User
  pub logged_in : session ≡ some (uid, admin)
  pub found : find_username (trim to) s.users ≡ some recip
  pub minimum : pos 100 ≤ℤ amount
  pub answer : r ≡ transferred (balance_of s.users uid -ℤ amount) recip.username amount
  pub moved : Paid uid recip.id amount amount s s'

-- The guards that a transfer has passed when its transaction runs.
transfer_body-done :
    (fails : Faults) (session : Session) (to : String) (amount : ℤ) (memo : Option String)
    (s : Store) {tx : Tx} {r : Reply}
    → transfer_body fails session to amount memo s ≡ done (tx, r)
    → (uid : String) × (admin : Bool) × (recip : User) × (session ≡ some (uid, admin))
      × (find_username (trim to) s.users ≡ some recip)
      × (pos 100 ≤ℤ amount)
      × (recip.id ≢ uid)
      × (transfer_tx fails uid recip.id recip.username amount memo s ≡ done (tx, r))
unfolding transfer_body
transfer_body-done fails none to amount memo s h = absurd (ground arith)
transfer_body-done fails (some (uid, admin)) to amount memo s h =
    elim (Option-cases (find_username (trim to) s.users)) [
      | inl unknown ↦ absurd (ground arith)
      | inr (recip, e) ↦ (
        uid,
        admin,
        recip,
        refl,
        e,
        ground arith,
        ground (arith, eq_iff recip.id uid),
        ground arith,
      )
    ]

module _ (fails : Faults) (session : Session) (to : String) (amount : ℤ) (memo : Option String)
    (s : Store) (h : IsSound s) (room : HasRoom s) where
  sent :
      {tx : Tx} {r : Reply}
      → transfer_body fails session to amount memo s ≡ done (tx, r)
      → (tx.aborted ≡ false) × Sent session to amount s r tx.store
  sent {tx} {r} e =
      let (uid, admin, recip, logged_in, found, minimum, other, e') =
        transfer_body-done fails session to amount memo s e in
      let (clean, left, answer, cover, payer, payee) =
        transfer_tx-done fails uid recip.id recip.username amount memo s e' in
      let sender_new = sub64 (balance_of s.users uid) amount in
      let recip_new = add64 (balance_of s.users recip.id) amount in
      let out = transfer_row TxnType.transfer_out uid amount sender_new recip.id memo in
      let in' = transfer_row TxnType.transfer_in recip.id amount recip_new uid memo in
      let d : IsDeal uid recip.id out in' s = record {
        sound = h;
        room = room;
        distinct = λ p. other (sym p);
        payer_known = payer;
        payee_known = payee;
        out_user = refl;
        in_user = refl;
        out_sign = refl;
        in_sign = refl;
        least = omega arith;
        share = omega arith;
        cover = cover;
      } in
      (
        clean,
        record {
          uid = uid;
          admin = admin;
          recip = recip;
          logged_in = logged_in;
          found = found;
          minimum = minimum;
          answer = rw (answer, payer_exact uid recip.id out in' s d);
          moved = rw left (unfold after_transfer in deal-Paid uid recip.id out in' s d);
        },
      )

  -- Over tables that satisfy the wallet's invariant and hold less than 2 ^ 63 cents in all, whatever
  -- statements fail, a transfer either answers an error and changes nothing; or it belongs to a logged
  -- in user, names an existing other user, is of at least the minimum, answers with the sender's new
  -- balance, moves the amount from one balance to the other, leaves every other balance and the total
  -- as they were, and keeps the invariant.
  pub wallet_transfer_atomic :
      let (r, s') = wallet_transfer fails session to amount memo s in
      ((e : Error) × (r ≡ failed e) × (s' ≡ s)) ⊎ Sent session to amount s r s'
  unfolding wallet_transfer
  wallet_transfer_atomic =
      elim (finish_cases fails s (transfer_body fails session to amount memo s)) [
        | inl (e, q) ↦ inl (e, rw q, rw q)
        | inr (tx, r, ran, q) ↦ let (clean, all) = sent ran in inr (rw (q, clean) all)
      ]
