-- ===== src/Stream/Safe.antt =====
-- File names that are let through.
use ppv_stream_rust.Prelude.{String, ◌≡◌, ◌≢◌, true, false, ◌||◌, arith, ◌==◌, eq_iff}
use ppv_stream_rust.Text.{to_ascii_lowercase, contains_char, contains, ends_with}
use ppv_stream_rust.Stream.{FileType, file_type, is_safe_file}

known_type :
    (file : String)
    → (ends_with (to_ascii_lowercase file) ".m3u8"
        || ends_with (to_ascii_lowercase file) ".ts"
        || ends_with (to_ascii_lowercase file) ".m4s"
        || ends_with (to_ascii_lowercase file) ".mp4")
      ≡ true
    → file_type file ≢ FileType.unknown
unfolding file_type
known_type file h q = absurd (ground (arith, h, q))

filled : (file : String) → (file == "") ≡ false → file ≢ ""
filled file h q = absurd (ground (arith, eq_iff file "", q))

-- A file name that is let through is not empty, has no slash, no backslash and no two dots in a row,
-- and is of one of the four known types, so that it is never served as unknown data.
pub is_safe_file-file_type :
    (file : String)
    → is_safe_file file ≡ true
    → (file ≢ "")
      × (contains_char file 47 ≡ false)
      × (contains_char file 92 ≡ false)
      × (contains file ".." ≡ false)
      × (file_type file ≢ FileType.unknown)
unfolding is_safe_file file_type
is_safe_file-file_type file h =
    let kind : file_type file ≢ FileType.unknown = known_type file (ground arith) in
    (filled file (ground arith), ground arith, ground arith, ground arith, kind)
