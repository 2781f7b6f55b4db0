-- ===== src/Examples.antt =====
-- Small tables on which the handlers are run: alice and bob buy, carol has videos, dave refers.
pub mod Wallet
pub mod Requests
pub mod Services
pub mod Chain
pub mod Message
pub mod Fiat
pub mod Sessions
pub mod Playback
pub mod Offers
pub mod Accounts
pub mod Races
use ppv_stream_rust.Prelude.{
  ◌≡◌, ◌≢◌, refl, false, true, none, some, List, [], ◌∷◌, String, arith, ◌^◌, ◌==◌, eq_iff,
}
use ppv_stream_rust.Prelude.Int.{ℤ, pos, ◌+ℤ◌, int_laws}
use ppv_stream_rust.Tables.{
  Store, User, Txn, TxnType, Status, Video, AffiliateSettings, find_user, balance_of,
}
use ppv_stream_rust.Tables.Ledger.{ledger, effect}
use ppv_stream_rust.Tables.Sound.{IsSound, HasRoom}
use ppv_stream_rust.Tables.Total.{total}
use ppv_stream_rust.Wallet.{Session}

abbrev user : String → String → ℤ → User
user id name cents = record { id = id; username = name; is_admin = false; balance_cents = cents }

abbrev deposited : String → ℤ → Txn
deposited id cents = record {
  id = 1;
  user_id = id;
  txn_type = TxnType.deposit;
  amount_cents = cents;
  balance_after = cents;
  status = Status.approved;
  ref_user_id = none;
  note = none;
  admin_note = none;
}

abbrev pub shop : Store
shop = record {
  users =
      user "a" "alice" (pos 20000)
      ∷ user "b" "bob" (pos 0)
      ∷ user "c" "carol" (pos 0)
      ∷ user "d" "dave" (pos 0)
      ∷ [];
  txns = deposited "a" (pos 20000) ∷ [];
  next_txn = 2;
  videos =
      record { id = "v"; owner_id = "c"; price_cents = pos 5000 }
      ∷ record { id = "w"; owner_id = "c"; price_cents = pos 1 }
      ∷ [];
  purchases = [];
  allowlist = [];
  paid_fiat = [];
  affiliate_settings = record { video_id = "v"; commission_pct = pos 10; is_enabled = true } ∷ [];
  commissions = [];
  payment_settings = none;
  blocks = [];
  clock = 100;
}

abbrev pub alice : Session
alice = some ("a", false)

abbrev pub bob : Session
bob = some ("b", false)

abbrev pub root : Session
root = some ("r", true)

pub shop-IsSound : IsSound shop
unfolding find_user balance_of ledger effect ◌+ℤ◌
shop-IsSound = record {
  keyed = (refl, (refl, (refl, (refl, tt))));
  numbered = (omega arith, tt);
  nonneg = (omega arith, (omega arith, (omega arith, (omega arith, tt))));
  positive = (omega arith, tt);
  owned = (refl, tt);
  reconciled = λ j. ground (arith, eq_iff "a" j);
}

pub shop-HasRoom : HasRoom shop
unfolding total
shop-HasRoom = omega int_laws

-- Two texts that the test tells apart.
pub differ : (a b : String) → (a == b) ≡ false → a ≢ b
differ a b h p = absurd (ground (arith, eq_iff a b, p))
