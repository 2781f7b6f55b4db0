-- ===== src/Stream/Cleanup.antt =====
-- Which sessions the clean-up removes.
use ppv_stream_rust.Prelude.{
  ℕ, ◌+◌, String, ◌≡◌, refl, Bool, true, false, List, [], ◌∷◌, arith, ◌==◌, eq_iff, if◌then◌else◌,
  All, ◌∙◌, ap, Bool-cases, inl, inr,
}
use mathlib.Core.Path.{subst}
use ppv_stream_rust.Stream.{
  PlaybackSession, is_expired, dir_of, delete_session, expired_rows, cleanup_rows,
  cleanup_expired_sessions,
}

-- The sessions that have not expired, in their order.
unfoldable pub live_rows : ℕ → List PlaybackSession → List PlaybackSession
live_rows now [] = []
live_rows now (x ∷ xs) = if is_expired now x then live_rows now xs else x ∷ live_rows now xs

-- `session_id` is a primary key.
abbrev pub IsKeyed : List PlaybackSession → Type 0
IsKeyed [] = Unit
IsKeyed (x ∷ xs) = All (λ y. (y.session_id == x.session_id) ≡ false) xs × IsKeyed xs

-- Every row with this id has expired.
abbrev IsCondemned : ℕ → String → List PlaybackSession → Type 0
IsCondemned now id = All (λ y. (y.session_id == id) ≡ true → is_expired now y ≡ true)

live_rows-delete_session :
    (now : ℕ) (id : String) (xs : List PlaybackSession)
    → IsCondemned now id xs
    → live_rows now (delete_session id xs) ≡ live_rows now xs
unfolding live_rows delete_session
live_rows-delete_session now id [] h = refl
live_rows-delete_session now id (x ∷ xs) h =
    let rest = live_rows-delete_session now id xs h.1 in
    elim (Bool-cases (x.session_id == id)) [
      | inl here ↦ rw (here, h.0 here) rest
      | inr other ↦ elim (Bool-cases (is_expired now x)) [
        | inl old ↦ rw (other, old) rest
        | inr young ↦ rw (other, young) (ap (λ ys. x ∷ ys) rest)
      ]
    ]

delete_session-IsCondemned :
    (now : ℕ) (id other : String) (xs : List PlaybackSession)
    → IsCondemned now id xs
    → IsCondemned now id (delete_session other xs)
unfolding delete_session
delete_session-IsCondemned now id other [] h = tt
delete_session-IsCondemned now id other (x ∷ xs) h =
    let rest = delete_session-IsCondemned now id other xs h.1 in
    elim (Bool-cases (x.session_id == other)) [
      | inl here ↦ rw here rest
      | inr there ↦ rw there (h.0, rest)
    ]

AllCondemned-delete_session :
    (now : ℕ) (other : String) (xs table : List PlaybackSession)
    → All (λ x. IsCondemned now x.session_id table) xs
    → All (λ x. IsCondemned now x.session_id (delete_session other table)) xs
AllCondemned-delete_session now other [] table h = tt
AllCondemned-delete_session now other (x ∷ xs) table h = (
  delete_session-IsCondemned now x.session_id other table h.0,
  AllCondemned-delete_session now other xs table h.1,
)

cleanup_rows_keeps :
    (removes : String × String → Bool) (deletes : PlaybackSession → Bool) (hls_root : String)
    (now : ℕ) (xs : List PlaybackSession) (n : ℕ) (table : List PlaybackSession)
    → All (λ x. IsCondemned now x.session_id table) xs
    → live_rows now (cleanup_rows removes deletes hls_root xs n table).1 ≡ live_rows now table
unfolding cleanup_rows
cleanup_rows_keeps removes deletes hls_root now [] n table h = refl
cleanup_rows_keeps removes deletes hls_root now (x ∷ xs) n table h =
    let gone = delete_session x.session_id table in
    let deleted =
      cleanup_rows_keeps removes deletes hls_root now xs (n + 1) gone
        (AllCondemned-delete_session now x.session_id xs table h.1) in
    let skipped = cleanup_rows_keeps removes deletes hls_root now xs n table h.1 in
    elim (Bool-cases (removes (dir_of hls_root x))) [
      | inr stays ↦ rw (stays, cleanup_rows) skipped
      | inl goes ↦ elim (Bool-cases (deletes x)) [
        | inr lost ↦ rw (goes, lost, cleanup_rows) refl
        | inl kept ↦
            rw (goes, kept, cleanup_rows)
              (deleted ∙ live_rows-delete_session now x.session_id table h.0)
      ]
    ]

-- An expired row of a table with a key condemns its id.
fresh-IsCondemned :
    (now : ℕ) (id : String) (xs : List PlaybackSession)
    → All (λ y. (y.session_id == id) ≡ false) xs
    → IsCondemned now id xs
fresh-IsCondemned now id [] h = tt
fresh-IsCondemned now id (x ∷ xs) h =
    (λ e. absurd (ground (arith, h.0, e)), fresh-IsCondemned now id xs h.1)

-- The expired rows are among the rows, so what holds of all rows holds of them.
expired_rows-All :
    (now : ℕ) (id : String) (xs : List PlaybackSession)
    → All (λ y. (y.session_id == id) ≡ false) xs
    → All (λ y. (y.session_id == id) ≡ false) (expired_rows now xs)
unfolding expired_rows
expired_rows-All now id [] h = tt
expired_rows-All now id (x ∷ xs) h =
    let rest = expired_rows-All now id xs h.1 in
    elim (Bool-cases (is_expired now x)) [
      | inl old ↦ rw old (h.0, rest)
      | inr young ↦ rw young rest
    ]

-- A row in front that these ids do not name changes nothing.
IsCondemned-behind :
    (now : ℕ) (x : PlaybackSession) (xs table : List PlaybackSession)
    → All (λ y. (y.session_id == x.session_id) ≡ false) xs
    → All (λ y. IsCondemned now y.session_id table) xs
    → All (λ y. IsCondemned now y.session_id (x ∷ table)) xs
IsCondemned-behind now x [] table a h = tt
IsCondemned-behind now x (y ∷ xs) table a h = (
  (
    λ e. absurd (
        ground (arith, eq_iff x.session_id y.session_id, eq_iff y.session_id x.session_id, a.0, e)),
    h.0,
  ),
  IsCondemned-behind now x xs table a.1 h.1,
)

expired_rows-IsCondemned :
    (now : ℕ) (table : List PlaybackSession)
    → IsKeyed table
    → All (λ x. IsCondemned now x.session_id table) (expired_rows now table)
unfolding expired_rows
expired_rows-IsCondemned now [] k = tt
expired_rows-IsCondemned now (x ∷ xs) k =
    let rest =
      IsCondemned-behind now x (expired_rows now xs) xs (expired_rows-All now x.session_id xs k.0)
        (expired_rows-IsCondemned now xs k.1) in
    elim (Bool-cases (is_expired now x)) [
      | inl old ↦
          let eq : (x ∷ expired_rows now xs) ≡ expired_rows now (x ∷ xs) = rw old refl in
          subst (All (λ y. IsCondemned now y.session_id (x ∷ xs))) eq
            ((λ e. old, fresh-IsCondemned now x.session_id xs k.0), rest)
      | inr young ↦
          let eq : expired_rows now xs ≡ expired_rows now (x ∷ xs) = rw young refl in
          subst (All (λ y. IsCondemned now y.session_id (x ∷ xs))) eq rest
    ]

-- Whatever directories cannot be removed and whatever DELETE fails, a clean-up of sessions with
-- distinct ids leaves every session that has not expired, in the same order.
pub cleanup_expired_sessions_keeps :
    (removes : String × String → Bool) (deletes : PlaybackSession → Bool) (hls_root : String)
    (now : ℕ) (table : List PlaybackSession)
    → IsKeyed table
    → live_rows now (cleanup_expired_sessions removes deletes hls_root now table).1
      ≡ live_rows now table
unfolding cleanup_expired_sessions
cleanup_expired_sessions_keeps removes deletes hls_root now table k =
    cleanup_rows_keeps removes deletes hls_root now (expired_rows now table) 0 table
      (expired_rows-IsCondemned now table k)
