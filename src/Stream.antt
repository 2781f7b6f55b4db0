-- ===== src/Stream.antt =====
-- src/handlers/stream.rs: the delivery of playback files and the clean-up of playback sessions. The
-- file system is a parameter: `fs::canonicalize`, which answers a path by its components, what opening
-- a file does, and whether a directory could be removed.
pub mod Safe
pub mod Served
pub mod Cleanup
pub mod Admission
pub mod Play
use Prim.Native.Char.{Char, code}
use ppv_stream_rust.Prelude.{
  ℕ, ◌+◌, String, Bool, true, false, not, ◌&&◌, ◌||◌, Option, none, some, List, [], ◌∷◌, ◌++◌, ◌==◌,
  leb, ltb, nat_eq, if◌then◌else◌,
}
use ppv_stream_rust.Text.{trim, to_ascii_lowercase, all_chars, contains_char, contains, ends_with}

-- `playback_sessions.status`
pub data PlaybackStatus : Type 0 where
  starting ready completed error : PlaybackStatus

-- `playback_sessions`
pub record PlaybackSession : Type 0 where
  pub session_id : String
  pub user_id : String
  pub session_dir : String
  pub status : PlaybackStatus
  pub expires_at : ℕ

pub data FileType : Type 0 where
  m3u8 ts m4s mp4 unknown : FileType

unfoldable pub file_type : String → FileType
file_type name =
    let lower = to_ascii_lowercase name in
    if ends_with lower ".m3u8"
    then FileType.m3u8
    else if ends_with lower ".ts"
    then FileType.ts
    else if ends_with lower ".m4s"
    then FileType.m4s
    else if ends_with lower ".mp4"
    then FileType.mp4
    else FileType.unknown

abbrev pub between : ℕ → ℕ → ℕ → Bool
between lo hi n = leb lo n && leb n hi

-- `is_ascii_alphanumeric`, `-` or `_`
abbrev pub is_token_char : Char → Bool
is_token_char c =
    let n = code c in
    between 48 57 n || between 65 90 n || between 97 122 n || nat_eq n 45 || nat_eq n 95

unfoldable pub is_safe_token : String → Bool
is_safe_token value = not (value == "") && all_chars is_token_char value

unfoldable pub is_safe_file : String → Bool
is_safe_file value =
    let lower = to_ascii_lowercase value in
    not (value == "")
    && not (contains_char value 47)
    && not (contains_char value 92)
    && not (contains value "..")
    && (ends_with lower ".m3u8"
        || ends_with lower ".ts"
        || ends_with lower ".m4s"
        || ends_with lower ".mp4")

unfoldable pub find_session : String → List PlaybackSession → Option PlaybackSession
find_session id [] = none
find_session id (x ∷ xs) = if x.session_id == id then some x else find_session id xs

-- DELETE FROM playback_sessions WHERE session_id = $1
unfoldable pub delete_session : String → List PlaybackSession → List PlaybackSession
delete_session id [] = []
delete_session id (x ∷ xs) =
    let rest = delete_session id xs in if x.session_id == id then rest else x ∷ rest

-- `Path::starts_with`, by components
unfoldable pub path_starts_with : List String → List String → Bool
path_starts_with path [] = true
path_starts_with [] (c ∷ root) = false
path_starts_with (d ∷ path) (c ∷ root) = d == c && path_starts_with path root

pub data Opened : Type 0 where
  opened missing broken : Opened

-- What surrounds a request for a file: the clock, the failing queries and the file system.
pub record Files : Type 0 where
  pub now : ℕ
  pub lookup_fails : Bool
  pub delete_fails : Bool
  pub hls_root : String
  pub canonicalize : String → Option (List String)
  pub open_file : List String → Opened

pub data Answer : Type 0 where
  invalid_path not_logged_in lookup_failed session_expired not_owner session_failed : Answer
  root_unavailable files_unavailable outside_root segment_not_found read_failed : Answer
  served : FileType → List String → Answer

abbrev pub is_error : PlaybackStatus → Bool
is_error PlaybackStatus.error = true
is_error _ = false

-- The end of `serve_hls`, for a session of the user's own.
unfoldable pub serve_file : Files → PlaybackSession → String → Answer
serve_file w row file =
    if is_error row.status then Answer.session_failed else elim (w.canonicalize w.hls_root) [
      | none ↦ Answer.root_unavailable
      | some root ↦ elim (w.canonicalize row.session_dir) [
        | none ↦ Answer.files_unavailable
        | some dir ↦
            let path = dir ++ file ∷ [] in
            if not (path_starts_with dir root)
            then Answer.outside_root
            else elim (w.open_file path) [
              | opened ↦ Answer.served (file_type file) path
              | missing ↦ Answer.segment_not_found
              | broken ↦ Answer.read_failed
            ]
      ]
    ]

-- `serve_hls`; a session that has expired is removed.
unfoldable pub serve_hls :
    Files
    → Option (String × Bool)
    → String
    → String
    → List PlaybackSession
    → Answer × List PlaybackSession
serve_hls w user session file xs =
    if not (is_safe_token session) || not (is_safe_file file)
    then (Answer.invalid_path, xs)
    else elim user [
      | none ↦ (Answer.not_logged_in, xs)
      | some (uid, _) ↦
          if w.lookup_fails then (Answer.lookup_failed, xs) else elim (find_session session xs) [
            | none ↦ (Answer.session_expired, xs)
            | some row ↦
                let left = if w.delete_fails then xs else delete_session session xs in
                if not (ltb w.now row.expires_at)
                then (Answer.session_expired, left)
                else if not (row.user_id == uid)
                then (Answer.not_owner, xs)
                else (serve_file w row file, xs)
          ]
    ]

-- The directory of a session
abbrev pub dir_of : String → PlaybackSession → String × String
dir_of hls_root x =
    if trim x.session_dir == "" then (hls_root, x.session_id) else (x.session_dir, "")

-- The loop of `cleanup_expired_sessions` over the expired rows: how many it removed, or none where a
-- DELETE failed and ended it; and the table.
unfoldable pub cleanup_rows :
    (String × String → Bool)
    → (PlaybackSession → Bool)
    → String
    → List PlaybackSession
    → ℕ
    → List PlaybackSession
    → Option ℕ × List PlaybackSession
cleanup_rows removes deletes hls_root [] removed table = (some removed, table)
cleanup_rows removes deletes hls_root (x ∷ xs) removed table =
    let gone = delete_session x.session_id table in
    let after_delete = cleanup_rows removes deletes hls_root xs (removed + 1) gone in
    let after_skip = cleanup_rows removes deletes hls_root xs removed table in
    if removes (dir_of hls_root x)
    then (if deletes x then after_delete else (none, table))
    else after_skip

abbrev pub is_expired : ℕ → PlaybackSession → Bool
is_expired now x = leb x.expires_at now

-- SELECT ... WHERE expires_at <= NOW()
unfoldable pub expired_rows : ℕ → List PlaybackSession → List PlaybackSession
expired_rows now [] = []
expired_rows now (x ∷ xs) =
    let rest = expired_rows now xs in if is_expired now x then x ∷ rest else rest

unfoldable pub cleanup_expired_sessions :
    (String × String → Bool)
    → (PlaybackSession → Bool)
    → String
    → ℕ
    → List PlaybackSession
    → Option ℕ × List PlaybackSession
cleanup_expired_sessions removes deletes hls_root now table =
    cleanup_rows removes deletes hls_root (expired_rows now table) 0 table
