-- ===== src/Access.antt =====
-- src/handlers/video.rs: `user_has_view_access`, who may watch a video.
pub mod Cases
pub mod Kept
pub mod Purchase
use ppv_stream_rust.Prelude.{
  String, Bool, true, false, ◌&&◌, not, Option, none, some, if◌then◌else◌, ◌==◌,
}
use ppv_stream_rust.Prelude.Int.{ℤ, pos, leb_ℤ}
use ppv_stream_rust.Tables.{Store, Video, User, find_video, find_user, has_pair}

-- The queries of the function. Each that fails has a default of its own.
pub data Query : Type 0 where
  price owner account allowed purchased fiat : Query

-- The price of a video; 1 where the video is missing or the query fails.
abbrev pub price_of : (Query → Bool) → String → Store → ℤ
price_of fails video_id s =
    if fails Query.price
    then pos 1
    else elim (find_video video_id s.videos) [ none ↦ pos 1 | some v ↦ v.price_cents ]

-- EXISTS (SELECT 1 FROM videos WHERE id = $1 AND owner_id = $2)
abbrev pub is_owner : String → String → Store → Bool
is_owner video_id user_id s = elim (find_video video_id s.videos) [
  | none ↦ false
  | some v ↦ v.owner_id == user_id
]

-- `fetch_one(...).await.unwrap_or(false)`
abbrev pub holds : (Query → Bool) → Query → Bool → Bool
holds fails q found = not (fails q) && found

-- The row of the user; none where it is missing or the query fails.
abbrev pub account_of : (Query → Bool) → String → Store → Option User
account_of fails user_id s = if fails Query.account then none else find_user user_id s.users

unfoldable pub user_has_view_access : (Query → Bool) → String → String → Store → Bool
user_has_view_access fails video_id user_id s =
    if leb_ℤ (price_of fails video_id s) (pos 0)
    then true
    else if holds fails Query.owner (is_owner video_id user_id s)
    then true
    else elim (account_of fails user_id s) [
      | none ↦ false
      | some u ↦
          if u.is_admin
          then true
          else if holds fails Query.allowed (has_pair video_id u.username s.allowlist)
          then true
          else if holds fails Query.purchased (has_pair user_id video_id s.purchases)
          then true
          else holds fails Query.fiat (has_pair user_id video_id s.paid_fiat)
    ]
