-- ===== src/Stream/Play/Watched.antt =====
-- src/handlers/stream.rs: `request_play` and `serve_hls` together.
use ppv_stream_rust.Prelude.{
  ◌+◌, ◌<◌, String, ◌≡◌, ◌≢◌, ap, ◌∙◌, Bool, true, false, some, List, [], ◌∷◌, ◌++◌, arith, eq_iff,
  str_refl, Option, none, Bool-cases, inl, inr, not, refl, if◌then◌else◌,
}
use ppv_stream_rust.Stream.{
  PlaybackSession, PlaybackStatus, Files, Opened, Answer, is_safe_token, is_safe_file, file_type,
  find_session, path_starts_with, serve_file, serve_hls, is_error,
}
use ppv_stream_rust.Stream.Play.{session_ttl, request_play, task_ends, mark_session_failed}
use ppv_stream_rust.Stream.Admission.{Query, Stage, Turn, ready, Catalog, join}
use ppv_stream_rust.Stream.Play.Ready.{stored, request_play_ready, find_session-set_status}

-- The file system at a later request for `file` of the session that `w` started: the directories
-- `root` and `dir`, below it, of the session are there, and so is the file.
pub record IsOnDisk (w : Stage) (later : Files) (root dir : List String) (file : String)
    : Type 0 where
  pub root_of : later.canonicalize later.hls_root ≡ some root
  pub dir_is : later.canonicalize (join w.hls_root w.session) ≡ some dir
  pub inside : path_starts_with dir root ≡ true
  pub there : later.open_file (dir ++ file ∷ []) ≡ Opened.opened

-- ffmpeg has failed, and its task could write that down.
abbrev pub is_noted_failure : Stage → Option Bool → Bool
is_noted_failure w none = false
is_noted_failure w (some true) = false
is_noted_failure w (some false) = not (w.fails Query.mark_failed)

module _ (w : Stage) (uid : String) where
  -- The session after the end of ffmpeg's task: failed, if that is what the task has noted.
  task_ends-status :
      (later_end : Option Bool) (xs : List PlaybackSession)
      → find_session w.session xs ≡ some (stored w uid PlaybackStatus.ready)
      → (st : PlaybackStatus) × (find_session w.session (task_ends w later_end xs)
          ≡ some (stored w uid st))
        × (is_error st ≡ is_noted_failure w later_end)
  unfolding task_ends mark_session_failed
  task_ends-status none xs h = (PlaybackStatus.ready, h, refl)
  task_ends-status (some true) xs h = elim (Bool-cases (w.fails Query.mark_completed)) [
    | inl lost ↦ (PlaybackStatus.ready, rw lost h, refl)
    | inr kept ↦ (
      PlaybackStatus.completed,
      rw kept (
          find_session-set_status PlaybackStatus.completed w.session xs
            {x = stored w uid PlaybackStatus.ready} h),
      refl,
    )
  ]
  task_ends-status (some false) xs h = elim (Bool-cases (w.fails Query.mark_failed)) [
    | inl lost ↦ (PlaybackStatus.ready, rw lost h, rw lost refl)
    | inr kept ↦ (
      PlaybackStatus.error,
      rw kept (
          find_session-set_status PlaybackStatus.error w.session xs
            {x = stored w uid PlaybackStatus.ready} h),
      rw kept refl,
    )
  ]

module _ (w : Stage) (later : Files) (uid : String) (ys : List PlaybackSession)
    (st : PlaybackStatus) (row : find_session w.session ys ≡ some (stored w uid st))
    (token : is_safe_token w.session ≡ true) (file : String) (name : is_safe_file file ≡ true)
    (young : later.now < w.now + session_ttl) (reachable : later.lookup_fails ≡ false) where
  own_is_served :
      (admin : Bool) (root dir : List String) (disk : IsOnDisk w later root dir file)
      → is_error st ≡ false
      → serve_hls later (some (uid, admin)) w.session file ys
        ≡ (Answer.served (file_type file) (dir ++ file ∷ []), ys)
  unfolding serve_hls serve_file
  own_is_served admin root dir disk good =
      rw
        (
          token, name, reachable, row, good, disk.root_of, disk.dir_is, disk.inside, disk.there,
          serve_hls,
        )
        (ground (arith, str_refl uid))

  own_is_failed :
      (admin : Bool)
      → is_error st ≡ true
      → serve_hls later (some (uid, admin)) w.session file ys ≡ (Answer.session_failed, ys)
  unfolding serve_hls serve_file
  own_is_failed admin bad =
      rw (token, name, reachable, row, bad, serve_hls) (ground (arith, str_refl uid))

  other_is_refused :
      (other : String) (admin : Bool)
      → other ≢ uid
      → serve_hls later (some (other, admin)) w.session file ys ≡ (Answer.not_owner, ys)
  unfolding serve_hls
  other_is_refused other admin ne = ground (arith, young, reachable, eq_iff uid other)

-- After a playback was answered as ready, and ffmpeg's task has then gone on, completed or failed, in a
-- request within 3600 seconds whose query of the session does not fail, for a file with a safe name:
-- if the task has noted a failure, the user who asked for the playback is told that the session
-- failed; if not, and the session's directory is there below the root with the file in it, the file is
-- served to that user; and any other user is refused as not the owner.
pub request_play-serve_hls :
    (w : Stage) (turns : List Turn) (uid : String) (admin : Bool) (video_id : String) (c : Catalog)
    (xs : List PlaybackSession) (later_end : Option Bool) (later : Files) (root dir : List String)
    (file : String)
    → (request_play w turns (some (uid, admin)) video_id c xs).0 ≡ ready w.session
    → is_safe_token w.session ≡ true
    → is_safe_file file ≡ true
    → later.now < w.now + session_ttl
    → later.lookup_fails ≡ false
    → (is_noted_failure w later_end ≡ false → IsOnDisk w later root dir file)
    → let left = (request_play w turns (some (uid, admin)) video_id c xs).1.sessions in
      let ys = task_ends w later_end left in
      (serve_hls later (some (uid, admin)) w.session file ys ≡ (
        if is_noted_failure w later_end
            then Answer.session_failed
            else Answer.served (file_type file) (dir ++ file ∷ []),
        ys,
      ))
      × ((other : String) (admin' : Bool)
          → other ≢ uid
          → serve_hls later (some (other, admin')) w.session file ys ≡ (Answer.not_owner, ys))
request_play-serve_hls w turns uid admin video_id c xs later_end later root dir file r token name
      young reachable disk =
    let (uid', checks, (s, row)) =
      request_play_ready w turns (some (uid, admin)) video_id c xs w.session r in
    let same : uid' ≡ uid = ground (arith, checks.logged_in) in
    let left = (request_play w turns (some (uid, admin)) video_id c xs).1.sessions in
    let ys = task_ends w later_end left in
    let row' : find_session w.session left ≡ some (stored w uid PlaybackStatus.ready) =
      row ∙ ap (λ u. some (stored w u PlaybackStatus.ready)) same in
    let (st, found, noted) = task_ends-status w uid later_end left row' in
    (
      elim (Bool-cases (is_noted_failure w later_end)) [
        | inl bad ↦ rw bad (
            own_is_failed w later uid ys st found token file name young reachable admin
              (noted ∙ bad))
        | inr good ↦ rw good (
            own_is_served w later uid ys st found token file name young reachable admin root dir
              (disk good) (noted ∙ good))
      ],
      other_is_refused w later uid ys st found token file name young reachable,
    )
