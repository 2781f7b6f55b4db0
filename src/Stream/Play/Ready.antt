-- ===== src/Stream/Play/Ready.antt =====
-- What a playback that is answered as ready shows, and what `serve_hls` makes of its session.
use ppv_stream_rust.Prelude.{
  String, ◌≡◌, ap, Bool, true, false, Option, none, some, List, [], ◌∷◌, ◌==◌, arith, str_refl,
  Bool-cases, Option-cases, inl, inr,
}
use ppv_stream_rust.Prelude.Attempt.{done, Attempt-cases}
use ppv_stream_rust.Tables.{Video, find_video}
use ppv_stream_rust.Access.{user_has_view_access}
use ppv_stream_rust.Wallet.{Session}
use ppv_stream_rust.Stream.{PlaybackSession, PlaybackStatus, find_session}
use ppv_stream_rust.Stream.Play.{
  set_status, mark_session_failed, give_up, new_session, insert_session, task_ends, conclude,
  run_session, cleaned, request_play,
}
use ppv_stream_rust.Stream.Admission.{
  Stage, Query, FileStep, Turn, Ending, PlayReply, ready, Catalog, Playback, admitted,
  resolve_input_path, wait_playlist,
}

abbrev restated : PlaybackStatus → Option PlaybackSession → Option PlaybackSession
restated st none = none
restated st (some x) = some (record x { status = st })

-- A change of status at a row's own id is found with the new status.
pub find_session-set_status :
    (st : PlaybackStatus) (id : String) (xs : List PlaybackSession) {x : PlaybackSession}
    → find_session id xs ≡ some x
    → find_session id (set_status st id xs) ≡ some (record x { status = st })
unfolding find_session set_status
find_session-set_status st id [] h = cc
find_session-set_status st id (y ∷ ys) {x} h = elim (Bool-cases (y.session_id == id)) [
  | inl here ↦
      let found : some y ≡ some x = ground arith in
      rw (here, find_session, here) (ap (λ o. restated st o) found)
  | inr there ↦
      let found : find_session id ys ≡ some x = ground arith in
      rw (there, find_session, there) (find_session-set_status st id ys {x = x} found)
]

module _ (w : Stage) (uid : String) where
  abbrev pub stored : PlaybackStatus → PlaybackSession
  stored st = record (new_session w uid) { status = st }

  pub task_ends-keeps :
      (ended : Option Bool) (xs : List PlaybackSession) (st : PlaybackStatus)
      → find_session w.session xs ≡ some (stored st)
      → (st' : PlaybackStatus) × (find_session w.session (task_ends w ended xs) ≡ some (stored st'))
  unfolding task_ends mark_session_failed
  task_ends-keeps none xs st h = (st, h)
  task_ends-keeps (some true) xs st h = elim (Bool-cases (w.fails Query.mark_completed)) [
    | inl lost ↦ (st, rw lost h)
    | inr kept ↦ (
      PlaybackStatus.completed,
      rw kept (find_session-set_status PlaybackStatus.completed w.session xs {x = stored st} h),
    )
  ]
  task_ends-keeps (some false) xs st h = elim (Bool-cases (w.fails Query.mark_failed)) [
    | inl lost ↦ (st, rw lost h)
    | inr kept ↦ (
      PlaybackStatus.error,
      rw kept (find_session-set_status PlaybackStatus.error w.session xs {x = stored st} h),
    )
  ]

  pub insert_session-found :
      (xs : List PlaybackSession) {ys : List PlaybackSession}
      → insert_session w uid xs ≡ some ys
      → find_session w.session ys ≡ some (stored PlaybackStatus.starting)
  unfolding insert_session find_session
  insert_session-found xs {ys} h = ground (arith, str_refl w.session)

  abbrev pub IsReady : PlayReply × Playback → String → Type 0
  IsReady r sid =
      (sid ≡ w.session) × (find_session w.session r.1.sessions ≡ some (stored PlaybackStatus.ready))

  conclude-IsReady :
      (e : Ending) (xs : List PlaybackSession) (st : PlaybackStatus) {sid : String}
      → find_session w.session xs ≡ some (stored st)
      → (conclude w e xs).0 ≡ ready sid
      → IsReady (conclude w e xs) sid
  unfolding conclude give_up
  conclude-IsReady Ending.playlist_there xs st {sid} h r =
      let (st', h') = task_ends-keeps w.ended xs st h in
      elim (Bool-cases (w.fails Query.mark_ready)) [
        | inl lost ↦ absurd (ground arith)
        | inr kept ↦ (
          ground arith,
          rw kept (
              find_session-set_status PlaybackStatus.ready w.session (task_ends w w.ended xs)
                {x = stored st'} h'),
        )
      ]
  conclude-IsReady Ending.ffmpeg_failed xs st h r = absurd (ground arith)
  conclude-IsReady Ending.no_playlist xs st h r = absurd (ground arith)
  conclude-IsReady Ending.closed xs st h r = absurd (ground arith)
  conclude-IsReady Ending.timed_out xs st h r = absurd (ground arith)

  run_session-IsReady :
      (turns : List Turn) (file : String) (xs : List PlaybackSession) {sid : String}
      → (run_session w turns uid file xs).0 ≡ ready sid
      → IsReady (run_session w turns uid file xs) sid
  unfolding run_session give_up
  run_session-IsReady turns file xs {sid} r = elim (Option-cases (insert_session w uid xs)) [
    | inl clash ↦ absurd (ground arith)
    | inr (ys, inserted) ↦ elim (Option-cases (resolve_input_path w file)) [
      | inl lost ↦ absurd (ground arith)
      | inr (path, found) ↦
          rw (inserted, found, run_session)
            (conclude-IsReady (wait_playlist turns) ys PlaybackStatus.starting
              (insert_session-found xs inserted) (ground arith))
    ]
  ]

-- What the checks at the start of `request_play` let through.
pub record Admitted (w : Stage) (user : Session) (video_id : String) (c : Catalog) (uid : String)
    : Type 0 where
  pub admin : Bool
  pub logged_in : user ≡ some (uid, admin)
  pub video : Video
  pub listed : find_video video_id c.main.videos ≡ some video
  pub may_watch : user_has_view_access w.access_fails video_id uid c.main ≡ true

admitted-done :
    (w : Stage) (user : Session) (video_id : String) (c : Catalog) {uid file : String}
    → admitted w user video_id c ≡ done (uid, file)
    → Admitted w user video_id c uid
unfolding admitted
admitted-done w user video_id c {uid} h = elim (Option-cases user) [
  | inl out ↦ absurd (ground arith)
  | inr ((uid', admin), logged) ↦ elim (Option-cases (find_video video_id c.main.videos)) [
    | inl missing' ↦ absurd (ground arith)
    | inr (v, listed) ↦
        let same : uid' ≡ uid = ground arith in
        record {
          admin = admin;
          logged_in = rw⁻¹ same logged;
          video = v;
          listed = listed;
          may_watch = ground arith;
        }
  ]
]

module _ (w : Stage) (turns : List Turn) (user : Session) (video_id : String) (c : Catalog)
    (xs : List PlaybackSession) (sid : String) where
  -- Whatever fails and however ffmpeg ends: a playback that is answered as ready belongs to a logged in
  -- user to whom `user_has_view_access` grants the video, which is listed; and its session is stored
  -- as ready, as that user's, in its own directory below the root of all sessions, for 3600 seconds.
  pub request_play_ready :
      (request_play w turns user video_id c xs).0 ≡ ready sid
      → (uid : String) × Admitted w user video_id c uid
        × IsReady w uid (request_play w turns user video_id c xs) sid
  unfolding request_play
  request_play_ready r = elim (Attempt-cases (admitted w user video_id c)) [
    | inl (e, stops) ↦ absurd (ground arith)
    | inr ((uid, file), goes) ↦ elim (Bool-cases (w.file_fails FileStep.make_root)) [
      | inl f ↦ absurd (ground arith)
      | inr root ↦ elim (Bool-cases (w.file_fails FileStep.make_dir)) [
        | inl f ↦ absurd (ground arith)
        | inr dir ↦ elim (Bool-cases (w.file_fails FileStep.write_watermark)) [
          | inl f ↦ absurd (ground arith)
          | inr wm ↦
              let runs : (run_session w turns uid file (cleaned w xs)).0 ≡ ready sid =
                ground arith in
              (
                uid,
                admitted-done w user video_id c goes,
                rw (goes, root, dir, wm, request_play)
                    (run_session-IsReady w uid turns file (cleaned w xs) runs),
              )
        ]
      ]
    ]
  ]
