-- ===== src/Access/Cases.antt =====
-- The grounds for access, independent of the order in which the queries are made.
use ppv_stream_rust.Prelude.{
  String, ◌≡◌, inl, inr, Bool, true, false, some, arith, if◌then◌else◌, Bool-cases, Option-cases,
  eq_iff,
}
use ppv_stream_rust.Prelude.Int.{pos, ◌≤ℤ◌, leb_ℤ}
use ppv_stream_rust.Tables.{Store, Video, User, find_video, find_user, has_pair}
use ppv_stream_rust.Access.{Query, holds, is_owner, price_of, account_of, user_has_view_access}

-- Why user `user_id` may watch video `video_id`.
pub data IsEntitled (video_id user_id : String) (s : Store) : Type 0 where
  free :
      (v : Video)
      → find_video video_id s.videos ≡ some v
      → v.price_cents ≤ℤ pos 0
      → IsEntitled video_id user_id s
  owner :
      (v : Video)
      → find_video video_id s.videos ≡ some v
      → v.owner_id ≡ user_id
      → IsEntitled video_id user_id s
  admin :
      (u : User)
      → find_user user_id s.users ≡ some u
      → u.is_admin ≡ true
      → IsEntitled video_id user_id s
  allowed :
      (u : User)
      → find_user user_id s.users ≡ some u
      → has_pair video_id u.username s.allowlist ≡ true
      → IsEntitled video_id user_id s
  purchased :
      (u : User)
      → find_user user_id s.users ≡ some u
      → has_pair user_id video_id s.purchases ≡ true
      → IsEntitled video_id user_id s
  paid :
      (u : User)
      → find_user user_id s.users ≡ some u
      → has_pair user_id video_id s.paid_fiat ≡ true
      → IsEntitled video_id user_id s

-- No query fails.
abbrev pub answered : Query → Bool
answered _ = false

pub entitled :
    (video_id user_id : String) (s : Store)
    → IsEntitled video_id user_id s
    → user_has_view_access answered video_id user_id s ≡ true
unfolding user_has_view_access
entitled video_id user_id s (IsEntitled.free v e a) = ground arith
entitled video_id user_id s (IsEntitled.owner v e a) = ground (arith, eq_iff v.owner_id user_id)
entitled video_id user_id s (IsEntitled.admin u e a) = ground arith
entitled video_id user_id s (IsEntitled.allowed u e a) = ground arith
entitled video_id user_id s (IsEntitled.purchased u e a) = ground arith
entitled video_id user_id s (IsEntitled.paid u e a) = ground arith

module _ (fails : Query → Bool) (video_id user_id : String) (s : Store) where
  -- The row of the user alone grants access, once the video is neither free nor the user's own.
  by_account :
      (u : User)
      → find_user user_id s.users ≡ some u
      → (if u.is_admin
          then true
          else if holds fails Query.allowed (has_pair video_id u.username s.allowlist)
          then true
          else if holds fails Query.purchased (has_pair user_id video_id s.purchases)
          then true
          else holds fails Query.fiat (has_pair user_id video_id s.paid_fiat))
        ≡ true
      → IsEntitled video_id user_id s
  by_account u e h = elim (Bool-cases u.is_admin) [
    | inl a ↦ IsEntitled.admin u e a
    | inr plain ↦ elim (Bool-cases (has_pair video_id u.username s.allowlist)) [
      | inl a ↦ IsEntitled.allowed u e a
      | inr unlisted ↦ elim (Bool-cases (has_pair user_id video_id s.purchases)) [
        | inl a ↦ IsEntitled.purchased u e a
        | inr unbought ↦ IsEntitled.paid u e (ground arith)
      ]
    ]
  ]

  -- Whatever queries fail, access is only granted to a user who is entitled to it: the video is free,
  -- or the user owns it, is an administrator, is on the allowlist, has purchased it or has paid a
  -- fiat invoice for it.
  pub user_has_view_access-IsEntitled :
      user_has_view_access fails video_id user_id s ≡ true → IsEntitled video_id user_id s
  unfolding user_has_view_access
  user_has_view_access-IsEntitled h =
      elim (Bool-cases (leb_ℤ (price_of fails video_id s) (pos 0))) [
        | inl cheap ↦ elim (Option-cases (find_video video_id s.videos)) [
          | inl missing ↦ absurd (ground arith)
          | inr (v, e) ↦ IsEntitled.free v e (ground arith)
        ]
        | inr dear ↦ elim (Bool-cases (holds fails Query.owner (is_owner video_id user_id s))) [
          | inl own ↦ elim (Option-cases (find_video video_id s.videos)) [
            | inl missing ↦ absurd (ground arith)
            | inr (v, e) ↦ IsEntitled.owner v e (ground (arith, eq_iff v.owner_id user_id))
          ]
          | inr other ↦ elim (Option-cases (account_of fails user_id s)) [
            | inl unknown ↦ absurd (ground arith)
            | inr (u, e) ↦ by_account u (ground arith) (ground arith)
          ]
        ]
      ]
