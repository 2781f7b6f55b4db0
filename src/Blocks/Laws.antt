-- ===== src/Blocks/Laws.antt =====
-- What blocking and unblocking do to the question who is blocked.
use ppv_stream_rust.Prelude.{
  ℕ, String, ◌≡◌, refl, ◌≢◌, ◌⊎◌, inl, inr, Bool, true, false, ◌&&◌, Option, some, List, [], ◌∷◌,
  arith, ◌==◌, eq_iff, Bool-cases,
}
use ppv_stream_rust.Text.{trim}
use ppv_stream_rust.Tables.{Store, Block, is_blocked}
use ppv_stream_rust.Blocks.{
  Query, BlockReply, is_pair, upsert_block, delete_blocks, block_user, unblock_user,
}

-- No pair but this one is asked for.
abbrev pub IsOther : String → String → String → String → Type 0
IsOther creator user c u = (c ≢ creator) ⊎ (u ≢ user)

is_blocked-upsert_block :
    (creator user kind : String) (reason : Option String) (now : ℕ) (bs : List Block)
    → is_blocked creator user now (upsert_block creator user kind reason bs) ≡ true
unfolding is_blocked upsert_block
is_blocked-upsert_block creator user kind reason now [] =
    ground (arith, eq_iff creator creator, eq_iff user user)
is_blocked-upsert_block creator user kind reason now (b ∷ bs) =
    ground (arith, is_blocked-upsert_block creator user kind reason now bs)

other_pair :
    (creator user c u : String) (b : Block)
    → IsOther creator user c u
    → is_pair creator user b ≡ true
    → (b.creator_user_id == c && b.blocked_user_id == u) ≡ false
other_pair creator user c u b (inl ne) h =
    ground (arith, eq_iff b.creator_user_id creator, eq_iff b.creator_user_id c)
other_pair creator user c u b (inr ne) h =
    ground (arith, eq_iff b.blocked_user_id user, eq_iff b.blocked_user_id u)

other_kept_upsert :
    (creator user kind c u : String) (reason : Option String) (now : ℕ) (bs : List Block)
    → IsOther creator user c u
    → is_blocked c u now (upsert_block creator user kind reason bs) ≡ is_blocked c u now bs
unfolding is_blocked upsert_block
other_kept_upsert creator user kind c u reason now [] ne = elim ne [
  | inl n ↦ ground (arith, eq_iff creator c)
  | inr n ↦ ground (arith, eq_iff user u)
]
other_kept_upsert creator user kind c u reason now (b ∷ bs) ne =
    let rest = other_kept_upsert creator user kind c u reason now bs ne in
    elim (Bool-cases (is_pair creator user b)) [
      | inl here ↦ let apart = other_pair creator user c u b ne here in ground (arith, here, apart)
      | inr there ↦ ground (arith, there, rest)
    ]

is_blocked-delete_blocks :
    (creator user : String) (now : ℕ) (bs : List Block)
    → is_blocked creator user now (delete_blocks creator user bs) ≡ false
unfolding is_blocked delete_blocks
is_blocked-delete_blocks creator user now [] = refl
is_blocked-delete_blocks creator user now (b ∷ bs) =
    ground (arith, is_blocked-delete_blocks creator user now bs)

other_kept_delete :
    (creator user c u : String) (now : ℕ) (bs : List Block)
    → IsOther creator user c u
    → is_blocked c u now (delete_blocks creator user bs) ≡ is_blocked c u now bs
unfolding is_blocked delete_blocks
other_kept_delete creator user c u now [] ne = refl
other_kept_delete creator user c u now (b ∷ bs) ne =
    let rest = other_kept_delete creator user c u now bs ne in
    elim (Bool-cases (is_pair creator user b)) [
      | inl here ↦
          let apart = other_pair creator user c u b ne here in ground (arith, here, apart, rest)
      | inr there ↦ ground (arith, there, rest)
    ]

block_user-done :
    (fails : Query → Bool) (creator user_id : String) (admin : Bool)
    (ban_type reason : Option String) (s : Store) {user kind : String}
    → (block_user fails (some (creator, admin)) user_id ban_type reason s).0
      ≡ BlockReply.blocked user kind
    → (user ≡ trim user_id)
      × (user ≢ creator)
      × ((block_user fails (some (creator, admin)) user_id ban_type reason s).1
          ≡ record s { blocks = upsert_block creator user kind reason s.blocks })
unfolding block_user
block_user-done fails creator user_id admin ban_type reason s h =
    (ground arith, ground (arith, eq_iff (trim user_id) creator), ground arith)

-- After a creator's request to block a user was answered with success, that user is blocked by that
-- creator at any time, is not the creator, and for every other pair nothing has changed; only the
-- table of blocks has changed.
pub block_user_blocks :
    (fails : Query → Bool) (creator user_id : String) (admin : Bool)
    (ban_type reason : Option String) (s : Store) (user kind : String)
    → (block_user fails (some (creator, admin)) user_id ban_type reason s).0
      ≡ BlockReply.blocked user kind
    → let s' = (block_user fails (some (creator, admin)) user_id ban_type reason s).1 in
      (user ≢ creator)
      × ((now : ℕ) → is_blocked creator user now s'.blocks ≡ true)
      × ((c u : String) (now : ℕ)
          → IsOther creator user c u
          → is_blocked c u now s'.blocks ≡ is_blocked c u now s.blocks)
      × (s' ≡ record s { blocks = s'.blocks })
block_user_blocks fails creator user_id admin ban_type reason s user kind h =
    let (same, other, left) = block_user-done fails creator user_id admin ban_type reason s h in
    (
      other,
      λ now. rw left (is_blocked-upsert_block creator user kind reason now s.blocks),
      λ c u now ne. rw left (other_kept_upsert creator user kind c u reason now s.blocks ne),
      rw left refl,
    )

unblock_user-done :
    (fails : Query → Bool) (creator user_id : String) (admin : Bool) (s : Store) {n : ℕ}
    → (unblock_user fails (some (creator, admin)) user_id s).0 ≡ BlockReply.removed n
    → (unblock_user fails (some (creator, admin)) user_id s).1
      ≡ record s { blocks = delete_blocks creator (trim user_id) s.blocks }
unfolding unblock_user
unblock_user-done fails creator user_id admin s h = ground arith

-- After a creator's request to unblock a user was answered with success, that user is not blocked by
-- that creator at any time, and for every other pair nothing has changed.
pub unblock_user_unblocks :
    (fails : Query → Bool) (creator user_id : String) (admin : Bool) (s : Store) (n : ℕ)
    → (unblock_user fails (some (creator, admin)) user_id s).0 ≡ BlockReply.removed n
    → let s' = (unblock_user fails (some (creator, admin)) user_id s).1 in
      ((now : ℕ) → is_blocked creator (trim user_id) now s'.blocks ≡ false)
      × ((c u : String) (now : ℕ)
          → IsOther creator (trim user_id) c u
          → is_blocked c u now s'.blocks ≡ is_blocked c u now s.blocks)
unblock_user_unblocks fails creator user_id admin s n h =
    let left = unblock_user-done fails creator user_id admin s h in
    (
      λ now. rw left (is_blocked-delete_blocks creator (trim user_id) now s.blocks),
      λ c u now ne. rw left (other_kept_delete creator (trim user_id) c u now s.blocks ne),
    )
