-- ===== src/Wallet/Transfer/Succeeds.antt =====
-- `wallet_transfer` where its conditions are met and nothing fails.
use ppv_stream_rust.Prelude.{
  String, ◌≡◌, refl, ◌≢◌, Bool, true, false, Option, some, arith, is_some, ◌==◌, eq_iff, inl, inr,
}
use ppv_stream_rust.Prelude.Int.{ℤ, pos, ◌≤ℤ◌, ltb_ℤ}
use ppv_stream_rust.Prelude.Word.{add64, sub64}
use ppv_stream_rust.Prelude.Attempt.{done}
use ppv_stream_rust.Settings.{load_payment_settings}
use ppv_stream_rust.Text.{trim}
use ppv_stream_rust.Tables.{Store, User, TxnType, find_username, find_user, balance_of}
use ppv_stream_rust.Tables.Users.{find_user_of_find_username}
use ppv_stream_rust.Tables.Sound.{IsSound, HasRoom}
use ppv_stream_rust.Transaction.{healthy, opened}
use ppv_stream_rust.Wallet.{Error, Reply, finish, transferred, failed}
use ppv_stream_rust.Wallet.Settle.Succeeds.{settle_succeeds}
use ppv_stream_rust.Wallet.Transfer.{transfer_row, transfer_tx, transfer_body, wallet_transfer}
use ppv_stream_rust.Wallet.Transfer.Atomic.{wallet_transfer_atomic, Sent}
use ppv_stream_rust.Wallet.Transfer.Outcome.{after_transfer}

transfer_tx_succeeds :
    (uid recip name : String) (amount : ℤ) (memo : Option String) (s : Store)
    → pos 100 ≤ℤ amount
    → amount ≤ℤ balance_of s.users uid
    → is_some (find_user uid s.users) ≡ true
    → is_some (find_user recip s.users) ≡ true
    → transfer_tx healthy uid recip name amount memo s
      ≡ done (
        opened (after_transfer uid recip amount memo s),
        transferred (sub64 (balance_of s.users uid) amount) name amount,
      )
unfolding transfer_tx after_transfer
transfer_tx_succeeds uid recip name amount memo s least cover known known' =
    let sender_new = sub64 (balance_of s.users uid) amount in
    let recip_new = add64 (balance_of s.users recip) amount in
    let moved =
      settle_succeeds uid sender_new recip recip_new
        (transfer_row TxnType.transfer_out uid amount sender_new recip memo)
        (transfer_row TxnType.transfer_in recip amount recip_new uid memo) s (omega arith)
        (omega arith) known known' refl refl refl refl in
    let covered : ltb_ℤ (balance_of s.users uid) amount ≡ false = ground arith in
    rw covered (rw moved refl)

transferred_is_no_error :
    {a b : ℤ} {n : String} {r : Reply} (e : Error) → r ≡ transferred a n b → r ≢ failed e
transferred_is_no_error e p q = cc

-- Over tables that satisfy the wallet's invariant and hold less than 2 ^ 63 cents in all, where no
-- statement fails and transfers are switched on: a transfer of at least the minimum and at most the
-- balance, by a user who is there to the name of another, is made, as the theorem on its atomicity
-- says.
pub wallet_transfer_succeeds :
    (uid to : String) (admin : Bool) (amount : ℤ) (memo : Option String) (s : Store) (recip : User)
    → IsSound s
    → HasRoom s
    → (load_payment_settings false s.payment_settings).wallet_transfer_enabled ≡ true
    → pos 100 ≤ℤ amount
    → amount ≤ℤ balance_of s.users uid
    → is_some (find_user uid s.users) ≡ true
    → find_username (trim to) s.users ≡ some recip
    → recip.id ≢ uid
    → let (r, s') = wallet_transfer healthy (some (uid, admin)) to amount memo s in
      Sent (some (uid, admin)) to amount s r s'
unfolding wallet_transfer transfer_body finish
wallet_transfer_succeeds uid to admin amount memo s recip h room enabled least cover known found
      other =
    let tx =
      transfer_tx_succeeds uid recip.id recip.username amount memo s least cover known
        (find_user_of_find_username (trim to) s.users found) in
    let enough : ltb_ℤ amount (pos 100) ≡ false = ground arith in
    let apart : (recip.id == uid) ≡ false = ground (arith, eq_iff recip.id uid) in
    let ran : (wallet_transfer healthy (some (uid, admin)) to amount memo s).0
        ≡ transferred (sub64 (balance_of s.users uid) amount) recip.username amount =
      rw enabled (rw enough (rw found (rw apart (rw tx refl)))) in
    elim (wallet_transfer_atomic healthy (some (uid, admin)) to amount memo s h room) [
      | inl (e, q, same) ↦ absurd (transferred_is_no_error e ran q)
      | inr sent ↦ sent
    ]
