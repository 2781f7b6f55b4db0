-- ===== src/Stream/Served.antt =====
-- What a file that is served shows.
use ppv_stream_rust.Prelude.{
  String, ◌≡◌, ◌≢◌, Bool, true, false, Option, some, List, [], ◌∷◌, ◌++◌, arith, eq_iff, ◌<◌,
  Option-cases, inl, inr,
}
use ppv_stream_rust.Stream.{
  PlaybackSession, PlaybackStatus, FileType, file_type, is_safe_token, is_safe_file, find_session,
  path_starts_with, Files, Answer, is_error, serve_file, serve_hls,
}

-- The conditions under which `file` of `session` is served to the user as `path` of type `kind`.
pub record Served (w : Files) (user : Option (String × Bool)) (session file : String)
    (xs : List PlaybackSession) (kind : FileType) (path : List String) : Type 0 where
  pub uid : String
  pub admin : Bool
  pub logged_in : user ≡ some (uid, admin)
  pub safe_token : is_safe_token session ≡ true
  pub safe_file : is_safe_file file ≡ true
  pub row : PlaybackSession
  pub found : find_session session xs ≡ some row
  pub own : row.user_id ≡ uid
  pub live : w.now < row.expires_at
  pub not_failed : row.status ≢ PlaybackStatus.error
  pub root : List String
  pub root_of : w.canonicalize w.hls_root ≡ some root
  pub dir : List String
  pub dir_is : w.canonicalize row.session_dir ≡ some dir
  pub inside : path_starts_with dir root ≡ true
  pub kind_of : kind ≡ file_type file
  pub path_of : path ≡ dir ++ file ∷ []

not_error : (st : PlaybackStatus) → is_error st ≡ false → st ≢ PlaybackStatus.error
not_error PlaybackStatus.error h q = absurd (ground arith)
not_error PlaybackStatus.starting h q = cc q
not_error PlaybackStatus.ready h q = cc q
not_error PlaybackStatus.completed h q = cc q

module _ (w : Files) (user : Option (String × Bool)) (session file : String)
    (xs : List PlaybackSession) (kind : FileType) (path : List String) where
  -- A file is only served to a logged in user, from a session of its own that has not expired and has
  -- not failed, under a safe session name and a safe file name, out of a directory below the root of
  -- all sessions, with the type of its ending; and serving it changes no session.
  pub serve_hls_served :
      (serve_hls w user session file xs).0 ≡ Answer.served kind path
      → Served w user session file xs kind path × ((serve_hls w user session file xs).1 ≡ xs)
  unfolding serve_hls serve_file
  serve_hls_served h = elim (Option-cases user) [
    | inl out ↦ absurd (ground arith)
    | inr ((uid, admin), user_is) ↦ elim (Option-cases (find_session session xs)) [
      | inl missing' ↦ absurd (ground arith)
      | inr (row, found) ↦ elim (Option-cases (w.canonicalize w.hls_root)) [
        | inl no_root ↦ absurd (ground arith)
        | inr (root, r) ↦ elim (Option-cases (w.canonicalize row.session_dir)) [
          | inl no_dir ↦ absurd (ground arith)
          | inr (dir, d) ↦ (
            record {
              uid = uid;
              admin = admin;
              logged_in = user_is;
              safe_token = ground arith;
              safe_file = ground arith;
              row = row;
              found = found;
              own = ground (arith, eq_iff row.user_id uid);
              live = ground arith;
              not_failed = not_error row.status (ground arith);
              root = root;
              root_of = r;
              dir = dir;
              dir_is = d;
              inside = ground arith;
              kind_of = ground arith;
              path_of = ground arith;
            },
            ground arith,
          )
        ]
      ]
    ]
  ]
