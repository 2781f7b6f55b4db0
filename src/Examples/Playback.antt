-- ===== src/Examples/Playback.antt =====
-- The theorems on playback and on blocks, at small inputs.
use ppv_stream_rust.Prelude.{
  String, ◌≡◌, ◌≢◌, refl, Bool, true, false, some, none, List, [], ◌∷◌, arith, if◌then◌else◌, ◌==◌,
}
use ppv_stream_rust.Text.{
  contains, contains_char, ends_with, to_ascii_lowercase, all_chars, trim, trim_start_matches,
  trim_end_matches, is_whitespace, lower_char,
}
use ppv_stream_rust.Tables.{Store, find_video, find_user, is_blocked}
use ppv_stream_rust.Tables.Sound.{IsSound-kept}
use ppv_stream_rust.Transaction.{healthy}
use ppv_stream_rust.Wallet.{Error, failed}
use ppv_stream_rust.Wallet.Payment.{wallet_pay_video}
use ppv_stream_rust.Stream.{
  PlaybackSession, PlaybackStatus, FileType, file_type, Files, Opened, Answer, is_safe_token,
  is_safe_file, find_session, serve_hls, serve_file, path_starts_with, cleanup_expired_sessions,
}
use ppv_stream_rust.Stream.{cleanup_rows, expired_rows, delete_session}
use ppv_stream_rust.Tables.{find_second}
use ppv_stream_rust.Text.{strip_prefix}
use ppv_stream_rust.Access.{user_has_view_access}
use ppv_stream_rust.Stream.Play.{
  request_play, run_session, insert_session, conclude, task_ends, give_up,
}
use ppv_stream_rust.Stream.Admission.{
  Stage, Turn, Wake, PlayReply, PlayError, Catalog, admitted, resolve_input_path, wait_playlist,
  join,
}
use ppv_stream_rust.Stream.Play.Refused.{IsClosed, request_play_refused}
use ppv_stream_rust.Stream.Play.Watched.{IsOnDisk, request_play-serve_hls}
use ppv_stream_rust.Stream.Served.{Served, serve_hls_served}
use ppv_stream_rust.Blocks.{
  Query, BlockReply, block_user, unblock_user, normalize_ban_type, count_pairs,
}
use ppv_stream_rust.Blocks.Purchase.{blocked_user_cannot_buy}
use ppv_stream_rust.Examples.{shop, shop-IsSound, shop-HasRoom}

abbrev segment : String
segment = "seg.ts"

abbrev playing : PlaybackSession
playing = record {
  session_id = "s1";
  user_id = "a";
  session_dir = "/hls/s1";
  status = PlaybackStatus.ready;
  expires_at = 500;
}

abbrev sessions : List PlaybackSession
sessions = playing ∷ record playing { session_id = "s2"; expires_at = 50 } ∷ []

abbrev disk : Files
disk = record {
  now = 100;
  lookup_fails = false;
  delete_fails = false;
  hls_root = "/hls";
  canonicalize = λ p. if p == "/hls" then some ("hls" ∷ []) else some ("hls" ∷ "s1" ∷ []);
  open_file = λ p. Opened.opened;
}

a_segment :
    (serve_hls disk (some ("a", false)) "s1" "seg.ts" sessions).0
    ≡ Answer.served FileType.ts ("hls" ∷ "s1" ∷ "seg.ts" ∷ [])
unfolding serve_hls serve_file is_safe_token is_safe_file file_type find_session path_starts_with
    contains contains_char ends_with to_ascii_lowercase lower_char all_chars
a_segment = refl

serve_hls_served_example :
    Served disk
      (some ("a", false))
      "s1"
      "seg.ts"
      sessions
      FileType.ts
      ("hls" ∷ "s1" ∷ "seg.ts" ∷ [])
    × ((serve_hls disk (some ("a", false)) "s1" "seg.ts" sessions).1 ≡ sessions)
serve_hls_served_example =
    serve_hls_served disk (some ("a", false)) "s1" "seg.ts" sessions FileType.ts
      ("hls" ∷ "s1" ∷ "seg.ts" ∷ []) a_segment

abbrev works : Query → Bool
works q = false

abbrev barred : Store
barred = record shop {
  blocks =
      record {
        creator_user_id = "c";
        blocked_user_id = "a";
        ban_type = "soft";
        reason = none;
        expires_at = none;
      }
      ∷ [];
}

blocked_user_cannot_buy_example :
    let (r, s') = wallet_pay_video healthy healthy 9000 (some ("a", false)) "v" none barred in
    (e : Error) × (r ≡ failed e) × (s' ≡ barred)
unfolding find_video is_blocked
blocked_user_cannot_buy_example =
    blocked_user_cannot_buy healthy healthy 9000 "a" "v" false none barred _ (omega arith)
      (IsSound-kept barred refl refl refl shop-IsSound) shop-HasRoom refl refl

alice_barred :
    (block_user works (some ("c", false)) " a" none none shop).0 ≡ BlockReply.blocked "a" "soft"
unfolding block_user find_user trim trim_start_matches trim_end_matches is_whitespace
    normalize_ban_type to_ascii_lowercase lower_char
alice_barred = refl

abbrev buyer : String
buyer = "a"

abbrev seller : String
seller = "c"

alice_freed : (unblock_user works (some ("c", false)) "a" barred).0 ≡ BlockReply.removed 1
unfolding unblock_user count_pairs trim trim_start_matches trim_end_matches is_whitespace
alice_freed = refl

abbrev stage : Stage
stage = record {
  fails = λ q. false;
  access_fails = λ q. false;
  file_fails = λ q. false;
  removes = λ d. true;
  deletes = λ x. true;
  cleanup_fails = false;
  exists = λ p. p == "/up/f.mp4";
  hls_root = "/hls";
  upload_dir = "/up";
  media_dir = "/media";
  now = 100;
  session = "s9";
  ended = none;
}

abbrev catalog : Catalog
catalog = record { main = shop; remote = []; files = ("v", "f.mp4") ∷ [] }

-- carol watches her own video; the playlist is there at the second look.
abbrev looks : List Turn
looks =
    record { playlist = false; wake = Wake.tick }
    ∷ record { playlist = true; wake = Wake.tick }
    ∷ []

carol_ready :
    (request_play stage looks (some ("c", false)) "v" catalog sessions).0 ≡ PlayReply.ready "s9"
unfolding request_play admitted run_session insert_session resolve_input_path wait_playlist conclude
    task_ends user_has_view_access find_video find_user find_second find_session
    cleanup_expired_sessions cleanup_rows expired_rows delete_session join strip_prefix ends_with
    trim trim_start_matches trim_end_matches is_whitespace
carol_ready = refl

abbrev new_disk : Files
new_disk = record disk {
  canonicalize = λ p. if p == "/hls" then some ("hls" ∷ []) else some ("hls" ∷ "s9" ∷ []);
}

-- The directory and the file are there.
segment_there : IsOnDisk stage new_disk ("hls" ∷ []) ("hls" ∷ "s9" ∷ []) segment
unfolding join strip_prefix path_starts_with ends_with
segment_there = record { root_of = refl; dir_is = refl; inside = refl; there = refl }

-- ffmpeg completes after the answer.
request_play-serve_hls_example :
    let left = (request_play stage looks (some ("c", false)) "v" catalog sessions).1.sessions in
    let ys = task_ends stage (some true) left in
    (serve_hls new_disk (some ("c", false)) "s9" segment ys
      ≡ (Answer.served (file_type segment) ("hls" ∷ "s9" ∷ segment ∷ []), ys))
    × ((other : String) (admin : Bool)
        → other ≢ "c"
        → serve_hls new_disk (some (other, admin)) "s9" segment ys ≡ (Answer.not_owner, ys))
unfolding is_safe_token is_safe_file all_chars contains_char contains ends_with to_ascii_lowercase
    lower_char
request_play-serve_hls_example =
    request_play-serve_hls stage looks "c" false "v" catalog sessions (some true) new_disk
      ("hls" ∷ []) ("hls" ∷ "s9" ∷ []) segment carol_ready refl refl (omega arith) refl
      (λ good. segment_there)

-- ffmpeg ends, and there is no playlist.
abbrev no_looks : List Turn
no_looks = record { playlist = false; wake = Wake.ffmpeg_ok false } ∷ []

carol_refused :
    (request_play stage no_looks (some ("c", false)) "v" catalog sessions).0
    ≡ PlayReply.refused PlayError.not_started
unfolding request_play admitted run_session insert_session resolve_input_path wait_playlist conclude
    give_up user_has_view_access find_video find_user find_second find_session
    cleanup_expired_sessions cleanup_rows expired_rows delete_session join strip_prefix ends_with
    trim trim_start_matches trim_end_matches is_whitespace
carol_refused = refl

request_play_refused_example :
    IsClosed stage (request_play stage no_looks (some ("c", false)) "v" catalog sessions).1
unfolding find_session
request_play_refused_example =
    request_play_refused stage no_looks (some ("c", false)) "v" catalog sessions
      PlayError.not_started refl refl carol_refused
