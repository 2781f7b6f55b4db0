-- ===== src/Unlock/Rights.antt =====
-- What the two statements give a buyer.
use ppv_stream_rust.Prelude.{String, ◌≡◌, Bool, true, false, arith}
use ppv_stream_rust.Tables.{Store, has_pair}
use ppv_stream_rust.Wallet.Payment.{insert_purchase}
use ppv_stream_rust.Wallet.Payment.Outcome.{has_pair-insert_pair}
use ppv_stream_rust.Unlock.{try_purchase, try_allow}

pub try_purchase-users :
    (lost : Bool) (user video : String) (s : Store)
    → (try_purchase lost user video s).users ≡ s.users
unfolding try_purchase insert_purchase
try_purchase-users lost user video s = ground arith

-- A user and a name that are inserted into the allowlist: the row is the same, and the pair is there.
pub try_allow-rights :
    (lost : Bool) (user video name : String) (s : Store)
    → let s' = try_allow false video name (try_purchase lost user video s) in
      (s'.users ≡ s.users) × (has_pair video name s'.allowlist ≡ true)
unfolding try_allow
try_allow-rights lost user video name s =
    let t = try_purchase lost user video s in
    (try_purchase-users lost user video s, has_pair-insert_pair video name t.allowlist)
