-- ===== src/Unlock.antt =====
-- The two statements with which src/handlers/pay.rs, src/handlers/payment_plugins.rs and
-- src/services/x402_watcher.rs open a video to a buyer. They stand in no transaction, and the first
-- two files do not look at their results.
pub mod Rights
use ppv_stream_rust.Prelude.{String, Bool, Option, none, some, ◌==◌, if◌then◌else◌}
use ppv_stream_rust.Tables.{Store, find_user, insert_pair}
use ppv_stream_rust.Wallet.Payment.{insert_purchase}

-- INSERT INTO purchases; `lost` says whether the database fails.
unfoldable pub try_purchase : Bool → String → String → Store → Store
try_purchase lost user video s =
    if lost then s else elim (insert_purchase user video s) [ none ↦ s | some s' ↦ s' ]

-- SELECT username FROM users WHERE id = $1, and the empty text where there is none
abbrev pub name_of : Bool → String → Store → String
name_of lost user s =
    if lost then "" else elim (find_user user s.users) [ none ↦ "" | some u ↦ u.username ]

-- INSERT INTO allowlist ... ON CONFLICT (video_id, username) DO NOTHING
unfoldable pub try_allow : Bool → String → String → Store → Store
try_allow lost video name s =
    if lost then s else record s { allowlist = insert_pair video name s.allowlist }
