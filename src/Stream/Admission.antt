-- ===== src/Stream/Admission.antt =====
-- src/handlers/stream.rs: what `request_play` takes from its surroundings, its checks, the search for the
-- video's file, and the loop that waits for the playlist.
use Prim.Native.String
use ppv_stream_rust.Prelude.{
  ℕ, String, Bool, not, ◌&&◌, ◌||◌, Option, none, some, List, [], ◌∷◌, ◌==◌, is_some, or_else,
  if◌then◌else◌,
}
use ppv_stream_rust.Prelude.Attempt.{Attempt, done, ◌>>=◌, ◌>>◌, or_stop, stop_if}
use ppv_stream_rust.Text.{trim, ends_with, strip_prefix}
use ppv_stream_rust.Tables.{Store, find_user, find_video, find_second}
use ppv_stream_rust.Access
use ppv_stream_rust.Access.{user_has_view_access}
use ppv_stream_rust.Wallet.{Session}
use ppv_stream_rust.Stream.{PlaybackSession}

-- `is_absolute` and `join` of a path
abbrev pub is_absolute : String → Bool
is_absolute path = is_some (strip_prefix path "/")

unfoldable pub join : String → String → String
join dir name =
    if is_absolute name || dir == ""
    then name
    else if ends_with dir "/"
    then String.◌++◌ dir name
    else String.◌++◌ dir (String.◌++◌ "/" name)

-- The statements of the handler outside `user_has_view_access` and the clean-up.
pub data Query : Type 0 where
  select_remote select_video select_name store_session mark_ready mark_failed mark_completed : Query

-- The steps on the file system that may fail.
pub data FileStep : Type 0 where
  make_root make_dir write_watermark remove_dir : FileStep

-- What the handler takes from its surroundings. `access_fails` has the failing queries of
-- `user_has_view_access`, and `removes` and `deletes` what the clean-up meets. `ended` says whether
-- ffmpeg's task has ended when the playlist is found, and if so whether well.
pub record Stage : Type 0 where
  pub fails : Query → Bool
  pub access_fails : Access.Query → Bool
  pub file_fails : FileStep → Bool
  pub removes : String × String → Bool
  pub deletes : PlaybackSession → Bool
  pub cleanup_fails : Bool
  pub exists : String → Bool
  pub hls_root : String
  pub upload_dir : String
  pub media_dir : String
  pub now : ℕ
  pub session : String
  pub ended : Option Bool

-- What becomes visible in one turn of the loop that waits: whether the playlist is there, and what
-- ends the turn: 200 ms, or ffmpeg's message (with whether the playlist is there then), or the end of
-- the channel. A list of turns holds those before the time-out.
pub data Wake : Type 0 where
  tick channel_closed ffmpeg_err : Wake
  ffmpeg_ok : Bool → Wake

pub record Turn : Type 0 where
  pub playlist : Bool
  pub wake : Wake

pub data Ending : Type 0 where
  playlist_there ffmpeg_failed no_playlist closed timed_out : Ending

-- The loop, up to what ends it.
unfoldable pub wait_playlist : List Turn → Ending
wait_playlist [] = timed_out
wait_playlist (t ∷ ts) =
    let rest = wait_playlist ts in
    if t.playlist then playlist_there else elim t.wake [
      | tick ↦ rest
      | channel_closed ↦ closed
      | ffmpeg_err ↦ ffmpeg_failed
      | ffmpeg_ok there ↦ if there then rest else no_playlist
    ]

pub data PlayError : Type 0 where
  not_logged_in no_access db_error video_not_found user_lookup root_failed dir_failed : PlayError
  watermark_failed not_created source_not_found not_marked not_started : PlayError
  remote_video : Option String → PlayError

pub data PlayReply : Type 0 where
  refused : PlayError → PlayReply
  ready : String → PlayReply

-- The sessions, and whether the directory of the new one is there.
pub record Playback : Type 0 where
  pub sessions : List PlaybackSession
  pub has_dir : Bool

-- The tables that are only read: `remote` has the pairs of `object_uri` and `canonical_url`, and
-- `files` the file names of the videos.
pub record Catalog : Type 0 where
  pub main : Store
  pub remote : List (String × Option String)
  pub files : List (String × String)

-- What is checked before anything is written: the user and the file name of the video.
unfoldable pub admitted : Stage → Session → String → Catalog → Attempt PlayError (String × String)
admitted w user video_id c = do
  (uid, _) ← or_stop user not_logged_in
  let elsewhere = if w.fails Query.select_remote then none else find_second video_id c.remote
  stop_if (is_some elsewhere) (remote_video (or_else elsewhere none))
  stop_if (not (user_has_view_access w.access_fails video_id uid c.main)) no_access
  stop_if (w.fails Query.select_video) db_error
  stop_if (not (is_some (find_video video_id c.main.videos))) video_not_found
  stop_if (w.fails Query.select_name || not (is_some (find_user uid c.main.users))) user_lookup
  done (uid, or_else (find_second video_id c.files) "")

-- `resolve_input_path`: the first of the places where the file is.
unfoldable pub resolve_input_path : Stage → String → Option String
resolve_input_path w name =
    if is_absolute name && w.exists name
    then some name
    else if not (trim w.upload_dir == "") && w.exists (join w.upload_dir name)
    then some (join w.upload_dir name)
    else if w.exists (join w.media_dir name)
    then some (join w.media_dir name)
    else if w.exists (join "uploads" name)
    then some (join "uploads" name)
    else if w.exists name
    then some name
    else none
