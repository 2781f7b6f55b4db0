-- ===== src/Stream/Play.antt =====
-- src/handlers/stream.rs: `request_play`, the start of a playback. The file system, the new UUID and
-- ffmpeg, with what becomes visible of it while the handler waits, are parameters.
pub mod Ready
pub mod Refused
pub mod Watched
use Prim.Native.Nat.{max}
use Prim.Native.String
use ppv_stream_rust.Prelude.{
  ℕ, ◌+◌, String, Bool, true, false, not, ◌&&◌, ◌||◌, Option, none, some, List, [], ◌∷◌, ◌==◌,
  is_some, or_else, if◌then◌else◌,
}
use ppv_stream_rust.Prelude.Attempt.{Attempt, done, stopped, ◌>>=◌, ◌>>◌, or_stop, stop_if}
use ppv_stream_rust.Text.{trim, ends_with, strip_prefix}
use ppv_stream_rust.Tables.{Store, User, Video, find_user, find_video, find_second}
use ppv_stream_rust.Access
use ppv_stream_rust.Access.{user_has_view_access}
use ppv_stream_rust.Wallet.{Session}
use ppv_stream_rust.Stream.{PlaybackStatus, PlaybackSession, find_session, cleanup_expired_sessions}
use ppv_stream_rust.Stream.Admission.{
  is_absolute, join, Query, FileStep, Stage, Wake, Turn, Ending, wait_playlist, PlayError,
  PlayReply, Playback, Catalog, admitted, resolve_input_path, select_remote, select_video,
  select_name, store_session, mark_ready, mark_failed, mark_completed, make_root, make_dir,
  write_watermark, remove_dir, tick, channel_closed, ffmpeg_err, ffmpeg_ok, playlist_there,
  ffmpeg_failed, no_playlist, closed, timed_out, not_logged_in, no_access, db_error,
  video_not_found, user_lookup, root_failed, dir_failed, watermark_failed, not_created,
  source_not_found, not_marked, not_started, remote_video, refused, ready,
}

-- UPDATE playback_sessions SET status = $2 WHERE session_id = $1
unfoldable pub set_status : PlaybackStatus → String → List PlaybackSession → List PlaybackSession
set_status st id [] = []
set_status st id (x ∷ xs) =
    (if x.session_id == id then record x { status = st } else x) ∷ set_status st id xs

-- `mark_session_failed`, whose result is not looked at
unfoldable pub mark_session_failed : Stage → List PlaybackSession → List PlaybackSession
mark_session_failed w xs =
    if w.fails Query.mark_failed then xs else set_status PlaybackStatus.error w.session xs

-- `remove_dir_all` of the session's directory
abbrev pub drop_dir : Stage → Bool
drop_dir w = w.file_fails FileStep.remove_dir

-- A start that fails once the session is stored.
unfoldable pub give_up : Stage → PlayError → List PlaybackSession → PlayReply × Playback
give_up w e xs = (refused e, record { sessions = mark_session_failed w xs; has_dir = drop_dir w })

-- 60 minutes
abbrev pub session_ttl : ℕ
session_ttl = 3600

abbrev pub new_session : Stage → String → PlaybackSession
new_session w uid = record {
  session_id = w.session;
  user_id = uid;
  session_dir = join w.hls_root w.session;
  status = PlaybackStatus.starting;
  expires_at = w.now + session_ttl;
}

-- INSERT INTO playback_sessions: `session_id` is the primary key.
unfoldable pub insert_session :
    Stage → String → List PlaybackSession → Option (List PlaybackSession)
insert_session w uid xs =
    if w.fails Query.store_session || is_some (find_session w.session xs)
    then none
    else some (new_session w uid ∷ xs)

-- The end of ffmpeg's task: `completed`, or a failure and the removal of the directory.
unfoldable pub task_ends : Stage → Option Bool → List PlaybackSession → List PlaybackSession
task_ends w none xs = xs
task_ends w (some true) xs =
    if w.fails Query.mark_completed then xs else set_status PlaybackStatus.completed w.session xs
task_ends w (some false) xs = mark_session_failed w xs

abbrev dir_after : Stage → Option Bool → Bool
dir_after w (some false) = drop_dir w
dir_after w _ = true

-- From the end of the wait on.
unfoldable pub conclude : Stage → Ending → List PlaybackSession → PlayReply × Playback
conclude w playlist_there xs =
    let s = task_ends w w.ended xs in
    if w.fails Query.mark_ready then give_up w not_marked s else (
      ready w.session,
      record {
        sessions = set_status PlaybackStatus.ready w.session s;
        has_dir = dir_after w w.ended;
      },
    )
conclude w no_playlist xs = give_up w not_started (task_ends w (some true) xs)
conclude w _ xs = give_up w not_started xs

-- From the insertion of the session on.
unfoldable pub run_session :
    Stage → List Turn → String → String → List PlaybackSession → PlayReply × Playback
run_session w turns uid file xs = elim (insert_session w uid xs) [
  | none ↦ (refused not_created, record { sessions = xs; has_dir = drop_dir w })
  | some stored ↦ elim (resolve_input_path w file) [
    | none ↦ give_up w source_not_found stored
    | some path ↦ conclude w (wait_playlist turns) stored
  ]
]

-- The clean-up, whose result is only logged; its first query may fail.
abbrev pub cleaned : Stage → List PlaybackSession → List PlaybackSession
cleaned w xs =
    if w.cleanup_fails
    then xs
    else (cleanup_expired_sessions w.removes w.deletes w.hls_root w.now xs).1

unfoldable pub request_play :
    Stage → List Turn → Session → String → Catalog → List PlaybackSession → PlayReply × Playback
request_play w turns user video_id c xs = elim (admitted w user video_id c) [
  | stopped e ↦ (refused e, record { sessions = xs; has_dir = false })
  | done (uid, file) ↦
      let left = cleaned w xs in
      if w.file_fails FileStep.make_root
      then (refused root_failed, record { sessions = left; has_dir = false })
      else if w.file_fails FileStep.make_dir
      then (refused dir_failed, record { sessions = left; has_dir = false })
      else if w.file_fails FileStep.write_watermark
      then (refused watermark_failed, record { sessions = left; has_dir = drop_dir w })
      else run_session w turns uid file left
]
