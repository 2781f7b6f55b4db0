-- ===== src/Wallet/Runs.antt =====
-- The wallet as a whole: sequences of requests.
use ppv_stream_rust.Prelude.{ℕ, ◌≤◌, String, inl, inr, Option, List, [], ◌∷◌}
use ppv_stream_rust.Prelude.Int.{ℤ}
use ppv_stream_rust.Tables.{Store}
use ppv_stream_rust.Tables.Sound.{IsSound, HasRoom}
use ppv_stream_rust.Transaction.{Faults}
use ppv_stream_rust.Commission.{process_affiliate_commission}
use ppv_stream_rust.Commission.Atomic.{process_affiliate_commission_atomic}
use ppv_stream_rust.Wallet.{Session}
use ppv_stream_rust.Wallet.Requests.{wallet_deposit, wallet_withdraw}
use ppv_stream_rust.Wallet.Requests.Deposit.{wallet_deposit_cases}
use ppv_stream_rust.Wallet.Requests.Withdraw.{wallet_withdraw_cases}
use ppv_stream_rust.Wallet.Transfer.{wallet_transfer}
use ppv_stream_rust.Wallet.Transfer.Atomic.{wallet_transfer_atomic}
use ppv_stream_rust.Wallet.Payment.{wallet_pay_video}
use ppv_stream_rust.Wallet.Payment.Atomic.{wallet_pay_video_atomic}
use ppv_stream_rust.Wallet.Admin.{admin_wallet_approve, admin_wallet_complete, admin_wallet_reject}
use ppv_stream_rust.Wallet.Admin.Approve.{admin_wallet_approve_credits}
use ppv_stream_rust.Wallet.Admin.Complete.{admin_wallet_complete_marks}
use ppv_stream_rust.Wallet.Admin.Reject.{admin_wallet_reject_refunds}

-- A request of the wallet, by its handler; `commission` is a call by another payment handler.
pub data Request : Type 0 where
  deposit : ℤ → Option String → Request
  withdraw : ℤ → Option String → Request
  transfer : String → ℤ → Option String → Request
  pay_video : String → Option String → Request
  approve complete reject : ℕ → Option String → Request
  commission : String → String → String → ℤ → String → String → Option String → Request

-- The tables after a request of `session`, some of whose statements may fail.
unfoldable pub serve : ℕ → Faults → Faults → Session → Request → Store → Store
serve split_bp fails later session (Request.deposit a memo) s =
    (wallet_deposit fails session a memo s).1
serve split_bp fails later session (Request.withdraw a memo) s =
    (wallet_withdraw fails session a memo s).1
serve split_bp fails later session (Request.transfer to a memo) s =
    (wallet_transfer fails session to a memo s).1
serve split_bp fails later session (Request.pay_video v ref) s =
    (wallet_pay_video fails later split_bp session v ref s).1
serve split_bp fails later session (Request.approve i memo) s =
    (admin_wallet_approve fails session i memo s).1
serve split_bp fails later session (Request.complete i memo) s =
    (admin_wallet_complete fails session i memo s).1
serve split_bp fails later session (Request.reject i memo) s =
    (admin_wallet_reject fails session i memo s).1
serve split_bp fails later session (Request.commission v b o p name m inv) s =
    (process_affiliate_commission fails v b o p name m inv s).1

module _ (split_bp : ℕ) (most : split_bp ≤ 10000) where
  serve-IsSound :
      (fails later : Faults) (session : Session) (req : Request) (s : Store)
      → IsSound s
      → HasRoom s
      → IsSound (serve split_bp fails later session req s)
  unfolding serve
  serve-IsSound fails later session (Request.deposit a memo) s h room =
      elim (wallet_deposit_cases fails session a memo s h) [
        | inl (e, q, same) ↦ rw same h
        | inr d ↦ d.sound
      ]
  serve-IsSound fails later session (Request.withdraw a memo) s h room =
      elim (wallet_withdraw_cases fails session a memo s h room) [
        | inl (e, q, same) ↦ rw same h
        | inr (uid, admin, user, least, cover, answer, inl (kept, w)) ↦ w.sound
        | inr (uid, admin, user, least, cover, answer, inr (lost, same)) ↦ rw same h
      ]
  serve-IsSound fails later session (Request.transfer to a memo) s h room =
      elim (wallet_transfer_atomic fails session to a memo s h room) [
        | inl (e, q, same) ↦ rw same h
        | inr sent ↦ sent.moved.sound
      ]
  serve-IsSound fails later session (Request.pay_video v ref) s h room =
      elim (wallet_pay_video_atomic fails later split_bp most session v ref s h room) [
        | inl (e, q, same) ↦ rw same h
        | inr (o, t, c, b, inl same) ↦ rw same b.paid.sound
        | inr (o, t, c, b, inr (name, cents, m)) ↦ m.moved.sound
      ]
  serve-IsSound fails later session (Request.approve i memo) s h room =
      elim (admin_wallet_approve_credits fails session i memo s h) [
        | inl (e, q, same) ↦ rw same h
        | inr a ↦ a.sound
      ]
  serve-IsSound fails later session (Request.complete i memo) s h room =
      elim (admin_wallet_complete_marks fails session i memo s h) [
        | inl (e, q, same) ↦ rw same h
        | inr a ↦ a.sound
      ]
  serve-IsSound fails later session (Request.reject i memo) s h room =
      elim (admin_wallet_reject_refunds fails session i memo s h) [
        | inl (e, q, same) ↦ rw same h
        | inr a ↦ a.sound
      ]
  serve-IsSound fails later session (Request.commission v b o p name m inv) s h room =
      elim (process_affiliate_commission_atomic fails v b o p name m inv s h room) [
        | inl (q, e, same) ↦ rw same h
        | inr (inl (e, same)) ↦ rw same h
        | inr (inr (cents, e, c)) ↦ c.moved.sound
      ]

-- What comes with a request: the statements that fail, and the session.
abbrev pub Arrival : Type 0
Arrival = Faults × Faults × Session × Request

unfoldable pub serve_all : ℕ → List Arrival → Store → Store
serve_all split_bp [] s = s
serve_all split_bp ((fails, later, session, req) ∷ reqs) s =
    serve_all split_bp reqs (serve split_bp fails later session req s)

-- Before each of the requests all balances together are below 2 ^ 63 cents.
abbrev pub HasRoomThroughout : ℕ → List Arrival → Store → Type 0
HasRoomThroughout split_bp [] s = Unit
HasRoomThroughout split_bp ((fails, later, session, req) ∷ reqs) s =
    HasRoom s × HasRoomThroughout split_bp reqs (serve split_bp fails later session req s)

-- Any sequence of the wallet's requests and of commissions, one after the other, by whatever sessions
-- and with whatever statements failing, keeps the invariant: no balance is negative and each is the
-- sum of what its user's rows have done to it. It holds for a creator's split of at most 10000 basis
-- points, while all balances together stay below 2 ^ 63 cents.
pub serve_all-IsSound :
    (split_bp : ℕ) (reqs : List Arrival) (s : Store)
    → split_bp ≤ 10000
    → HasRoomThroughout split_bp reqs s
    → IsSound s
    → IsSound (serve_all split_bp reqs s)
unfolding serve_all
serve_all-IsSound split_bp [] s most room h = h
serve_all-IsSound split_bp ((fails, later, session, req) ∷ reqs) s most room h =
    serve_all-IsSound split_bp reqs (serve split_bp fails later session req s) most room.1
      (serve-IsSound split_bp most fails later session req s h room.0)
