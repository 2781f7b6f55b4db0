-- ===== src/Stream/Play/Refused.antt =====
-- What a playback that was refused leaves behind.
use ppv_stream_rust.Prelude.{
  ℕ, ◌+◌, String, ◌≡◌, ◌⊎◌, refl, Bool, true, false, none, some, List, [], ◌∷◌, ◌==◌, arith,
  Bool-cases, Option-cases, inl, inr,
}
use ppv_stream_rust.Prelude.Attempt.{Attempt-cases}
use ppv_stream_rust.Wallet.{Session}
use ppv_stream_rust.Stream.{
  PlaybackSession, PlaybackStatus, dir_of, find_session, delete_session, cleanup_rows, expired_rows,
  cleanup_expired_sessions,
}
use ppv_stream_rust.Stream.Play.{
  mark_session_failed, give_up, insert_session, task_ends, conclude, run_session, cleaned,
  request_play,
}
use ppv_stream_rust.Stream.Admission.{
  Stage, Query, FileStep, Turn, Ending, PlayError, refused, Catalog, Playback, admitted,
  resolve_input_path, wait_playlist,
}
use ppv_stream_rust.Stream.Play.Ready.{
  find_session-set_status, stored, task_ends-keeps, insert_session-found,
}

find_session-delete_session :
    (id other : String) (xs : List PlaybackSession)
    → find_session id xs ≡ none
    → find_session id (delete_session other xs) ≡ none
unfolding find_session delete_session
find_session-delete_session id other [] h = refl
find_session-delete_session id other (x ∷ xs) h = elim (Bool-cases (x.session_id == id)) [
  | inl here ↦ absurd (ground arith)
  | inr there ↦
      let missed : find_session id xs ≡ none = ground arith in
      let rest = find_session-delete_session id other xs missed in
      elim (Bool-cases (x.session_id == other)) [
        | inl gone ↦ rw (gone, delete_session) rest
        | inr kept ↦ rw (kept, delete_session, there, find_session) rest
      ]
]

find_session-cleanup_rows :
    (removes : String × String → Bool) (deletes : PlaybackSession → Bool) (hls_root : String)
    (id : String) (xs : List PlaybackSession) (n : ℕ) (table : List PlaybackSession)
    → find_session id table ≡ none
    → find_session id (cleanup_rows removes deletes hls_root xs n table).1 ≡ none
unfolding cleanup_rows
find_session-cleanup_rows removes deletes hls_root id [] n table h = h
find_session-cleanup_rows removes deletes hls_root id (x ∷ xs) n table h =
    let deleted =
      find_session-cleanup_rows removes deletes hls_root id xs (n + 1)
        (delete_session x.session_id table) (find_session-delete_session id x.session_id table h) in
    let skipped = find_session-cleanup_rows removes deletes hls_root id xs n table h in
    elim (Bool-cases (removes (dir_of hls_root x))) [
      | inr stays ↦ rw (stays, cleanup_rows) skipped
      | inl goes ↦ elim (Bool-cases (deletes x)) [
        | inr lost ↦ rw (goes, lost, cleanup_rows) h
        | inl kept ↦ rw (goes, kept, cleanup_rows) deleted
      ]
    ]

module _ (w : Stage) where
  find_session-cleaned :
      (xs : List PlaybackSession)
      → find_session w.session xs ≡ none
      → find_session w.session (cleaned w xs) ≡ none
  unfolding cleanup_expired_sessions
  find_session-cleaned xs h = elim (Bool-cases w.cleanup_fails) [
    | inl f ↦ rw f h
    | inr g ↦
        rw (g, cleaned)
          (find_session-cleanup_rows w.removes w.deletes w.hls_root w.session
            (expired_rows w.now xs) 0 xs h)
  ]

  -- Nobody is served from the new session, and its directory stays only where it cannot be removed.
  abbrev pub IsClosed : Playback → Type 0
  IsClosed s =
      ((find_session w.session s.sessions ≡ none)
        ⊎ ((x : PlaybackSession) × (find_session w.session s.sessions ≡ some x)
            × (x.status ≡ PlaybackStatus.error)))
      × ((s.has_dir ≡ false) ⊎ (w.file_fails FileStep.remove_dir ≡ true))

  dropped : (w.file_fails FileStep.remove_dir ≡ false) ⊎ (w.file_fails FileStep.remove_dir ≡ true)
  dropped = elim (Bool-cases (w.file_fails FileStep.remove_dir)) [ inl t ↦ inr t | inr f ↦ inl f ]

  give_up-IsClosed :
      (uid : String) (st : PlaybackStatus) (e : PlayError) (xs : List PlaybackSession)
      → w.fails Query.mark_failed ≡ false
      → find_session w.session xs ≡ some (stored w uid st)
      → IsClosed (give_up w e xs).1
  unfolding give_up mark_session_failed
  give_up-IsClosed uid st e xs works found = (
    inr (
      record (stored w uid st) { status = PlaybackStatus.error },
      rw works
          (find_session-set_status PlaybackStatus.error w.session xs {x = stored w uid st} found),
      refl,
    ),
    dropped,
  )

  conclude-IsClosed :
      (uid : String) (st : PlaybackStatus) (e : Ending) (xs : List PlaybackSession) {f : PlayError}
      → w.fails Query.mark_failed ≡ false
      → find_session w.session xs ≡ some (stored w uid st)
      → (conclude w e xs).0 ≡ refused f
      → IsClosed (conclude w e xs).1
  unfolding conclude
  conclude-IsClosed uid st Ending.playlist_there xs works found r =
      let (st', found') = task_ends-keeps w uid w.ended xs st found in
      elim (Bool-cases (w.fails Query.mark_ready)) [
        | inr kept ↦ absurd (ground arith)
        | inl lost ↦
            rw (lost, conclude)
              (give_up-IsClosed uid st' PlayError.not_marked (task_ends w w.ended xs) works found')
      ]
  conclude-IsClosed uid st Ending.no_playlist xs works found r =
      let (st', found') = task_ends-keeps w uid (some true) xs st found in
      give_up-IsClosed uid st' PlayError.not_started (task_ends w (some true) xs) works found'
  conclude-IsClosed uid st Ending.ffmpeg_failed xs works found r =
      give_up-IsClosed uid st PlayError.not_started xs works found
  conclude-IsClosed uid st Ending.closed xs works found r =
      give_up-IsClosed uid st PlayError.not_started xs works found
  conclude-IsClosed uid st Ending.timed_out xs works found r =
      give_up-IsClosed uid st PlayError.not_started xs works found

  run_session-IsClosed :
      (turns : List Turn) (uid file : String) (xs : List PlaybackSession) {f : PlayError}
      → w.fails Query.mark_failed ≡ false
      → find_session w.session xs ≡ none
      → (run_session w turns uid file xs).0 ≡ refused f
      → IsClosed (run_session w turns uid file xs).1
  unfolding run_session
  run_session-IsClosed turns uid file xs {f} works fresh r =
      elim (Option-cases (insert_session w uid xs)) [
        | inl clash ↦ rw (clash, run_session) (inl fresh, dropped)
        | inr (ys, inserted) ↦
            let found = insert_session-found w uid xs inserted in
            elim (Option-cases (resolve_input_path w file)) [
              | inl lost ↦
                  rw (inserted, lost, run_session)
                    (give_up-IsClosed uid PlaybackStatus.starting PlayError.source_not_found ys
                      works found)
              | inr (path, there) ↦
                  let end : (conclude w (wait_playlist turns) ys).0 ≡ refused f = ground arith in
                  rw (inserted, there, run_session)
                    (conclude-IsClosed uid PlaybackStatus.starting (wait_playlist turns) ys {f = f}
                      works found end)
            ]
      ]

module _ (w : Stage) (turns : List Turn) (user : Session) (video_id : String) (c : Catalog)
    (xs : List PlaybackSession) where
  -- However a playback under a new session name is refused, as long as the statement that marks a
  -- failed session works: afterwards there is no session of that name or it is marked as failed, so
  -- that no file is served from it; and its directory is gone, unless removing it fails.
  pub request_play_refused :
      (f : PlayError)
      → w.fails Query.mark_failed ≡ false
      → find_session w.session xs ≡ none
      → (request_play w turns user video_id c xs).0 ≡ refused f
      → IsClosed w (request_play w turns user video_id c xs).1
  unfolding request_play
  request_play_refused f works fresh r =
      let left = find_session-cleaned w xs fresh in
      elim (Attempt-cases (admitted w user video_id c)) [
        | inl (e, stops) ↦ rw (stops, request_play) (inl fresh, inl refl)
        | inr ((uid, file), goes) ↦ elim (Bool-cases (w.file_fails FileStep.make_root)) [
          | inl bad ↦ rw (goes, bad, request_play) (inl left, inl refl)
          | inr root ↦ elim (Bool-cases (w.file_fails FileStep.make_dir)) [
            | inl bad ↦ rw (goes, root, bad, request_play) (inl left, inl refl)
            | inr dir ↦ elim (Bool-cases (w.file_fails FileStep.write_watermark)) [
              | inl bad ↦ rw (goes, root, dir, bad, request_play) (inl left, dropped w)
              | inr wm ↦
                  let runs : (run_session w turns uid file (cleaned w xs)).0 ≡ refused f =
                    ground arith in
                  rw (goes, root, dir, wm, request_play)
                    (run_session-IsClosed w turns uid file (cleaned w xs) {f = f} works left runs)
            ]
          ]
        ]
      ]
