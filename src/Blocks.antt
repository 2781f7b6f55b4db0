-- ===== src/Blocks.antt =====
-- src/handlers/creator_block.rs and src/creator_block.rs: a creator blocks a user, and the trigger on
-- purchases (migrations/035_creator_blocked_users.sql).
pub mod Laws
pub mod Purchase
use ppv_stream_rust.Prelude.{
  ℕ, ◌+◌, String, Bool, true, false, not, ◌&&◌, Option, none, some, List, [], ◌∷◌, ◌==◌, is_some,
  or_else, if◌then◌else◌,
}
use ppv_stream_rust.Text.{trim, to_ascii_lowercase}
use ppv_stream_rust.Tables.{Store, Block, find_user, is_blocked}
use ppv_stream_rust.Wallet.{Session}

-- The statements of the two handlers.
pub data Query : Type 0 where
  count_user upsert delete count_blocks : Query

pub data BlockReply : Type 0 where
  not_logged_in user_id_required self_block user_not_found db_failed : BlockReply
  blocked : String → String → BlockReply
  removed : ℕ → BlockReply

-- Of `to_lowercase` only the ASCII letters matter to the comparison with "hard".
unfoldable pub normalize_ban_type : Option String → String
normalize_ban_type input =
    if to_ascii_lowercase (trim (or_else input "soft")) == "hard" then "hard" else "soft"

abbrev pub is_pair : String → String → Block → Bool
is_pair creator user b = b.creator_user_id == creator && b.blocked_user_id == user

-- INSERT INTO creator_blocked_users ... ON CONFLICT (creator_user_id, blocked_user_id) DO UPDATE
unfoldable pub upsert_block : String → String → String → Option String → List Block → List Block
upsert_block creator user ban_type reason [] =
    record {
      creator_user_id = creator;
      blocked_user_id = user;
      ban_type = ban_type;
      reason = reason;
      expires_at = none;
    }
    ∷ []
upsert_block creator user ban_type reason (b ∷ bs) =
    let rest = upsert_block creator user ban_type reason bs in
    if is_pair creator user b
    then record b { ban_type = ban_type; reason = reason; expires_at = none } ∷ bs
    else b ∷ rest

-- DELETE FROM creator_blocked_users WHERE creator_user_id = $1 AND blocked_user_id = $2
unfoldable pub delete_blocks : String → String → List Block → List Block
delete_blocks creator user [] = []
delete_blocks creator user (b ∷ bs) =
    let rest = delete_blocks creator user bs in if is_pair creator user b then rest else b ∷ rest

-- `rows_affected`
unfoldable pub count_pairs : String → String → List Block → ℕ
count_pairs creator user [] = 0
count_pairs creator user (b ∷ bs) =
    (if is_pair creator user b then 1 else 0) + count_pairs creator user bs

unfoldable pub block_user :
    (Query → Bool) → Session → String → Option String → Option String → Store → BlockReply × Store
block_user fails none user_id ban_type reason s = (BlockReply.not_logged_in, s)
block_user fails (some (creator, _)) user_id ban_type reason s =
    let user = trim user_id in
    let kind = normalize_ban_type ban_type in
    if user == ""
    then (BlockReply.user_id_required, s)
    else if user == creator
    then (BlockReply.self_block, s)
    else if fails Query.count_user
    then (BlockReply.user_not_found, s)
    else if not (is_some (find_user user s.users))
    then (BlockReply.user_not_found, s)
    else if fails Query.upsert
    then (BlockReply.db_failed, s)
    else (
      BlockReply.blocked user kind,
      record s { blocks = upsert_block creator user kind reason s.blocks },
    )

unfoldable pub unblock_user : (Query → Bool) → Session → String → Store → BlockReply × Store
unblock_user fails none user_id s = (BlockReply.not_logged_in, s)
unblock_user fails (some (creator, _)) user_id s =
    let user = trim user_id in
    if user == ""
    then (BlockReply.user_id_required, s)
    else if fails Query.delete
    then (BlockReply.db_failed, s)
    else (
      BlockReply.removed (count_pairs creator user s.blocks),
      record s { blocks = delete_blocks creator user s.blocks },
    )

-- `is_blocked_by_creator`: an error where its query fails, here none.
unfoldable pub is_blocked_by_creator : (Query → Bool) → String → String → Store → Option Bool
is_blocked_by_creator fails creator user s =
    if fails Query.count_blocks then none else some (is_blocked creator user s.clock s.blocks)
