-- ===== src/Sessions/Lifetime.antt =====
-- How long a session lasts, and whom a cookie stands for.
use ppv_stream_rust.Prelude.{
  ℕ, ◌+◌, ◌≤◌, String, ◌≡◌, refl, inl, inr, Bool, true, false, Option, none, some, List, [], ◌∷◌,
  arith, str_refl, ltb, if◌then◌else◌, Option-cases,
}
use ppv_stream_rust.Text.{split_once}
use ppv_stream_rust.Sessions.{
  Crypto, SessionRow, Query, parse_and_verify_cookie, find_session, delete_session, expiry,
  create_session, destroy_session, current_user_id,
}
use ppv_stream_rust.Sessions.Cookie.{IsFaithful, parse-build, parse-some}

-- No row of the session is left.
find_session-delete_session :
    (fails : Query → Bool) (sid : String) (rows : List SessionRow)
    → fails Query.delete ≡ false
    → find_session sid (delete_session fails sid rows) ≡ none
unfolding find_session delete_session
find_session-delete_session fails sid [] works = refl
find_session-delete_session fails sid (r ∷ rs) works =
    ground (arith, find_session-delete_session fails sid rs works)

-- If Base64 reads back what it has written for the session, with no dot in it, and `create_session` has
-- succeeded, then a later request whose query of the session does not fail takes the cookie that was
-- set for the user, with its role, at every time up to the expiry, which is at least a minute later,
-- and for nobody after it.
pub create_session_lasts :
    (c : Crypto) (fails fails' : Query → Bool) (ttl now later : ℕ) (sid user_id : String)
    (is_admin : Bool) (cookie : Option String) (rows : List SessionRow)
    → IsFaithful c sid
    → (create_session c fails ttl now sid user_id is_admin cookie rows).0 ≡ true
    → fails' Query.select ≡ false
    → let (made, (cookie', rows')) =
        create_session c fails ttl now sid user_id is_admin cookie rows in
      ((current_user_id c fails' later cookie' rows').0
        ≡ (if ltb (expiry ttl now) later then none else some (user_id, is_admin)))
      × (now + 60000000000 ≤ expiry ttl now)
unfolding create_session current_user_id find_session expiry
create_session_lasts c fails fails' ttl now later sid user_id is_admin cookie rows f made reads =
    let back = parse-build c sid f in (ground (arith, back, str_refl sid, reads), omega arith)

-- A cookie that stands for a user is signed by the server, for a session that is listed, is the user's
-- and has not expired, whatever statements fail.
pub current_user_id_sound :
    (c : Crypto) (fails : Query → Bool) (now : ℕ) (val : String) (rows : List SessionRow)
    (user_id : String) (is_admin : Bool)
    → (current_user_id c fails now (some val) rows).0 ≡ some (user_id, is_admin)
    → (sid sid_b64 sig_b64 : String) × (end : ℕ) × (row : SessionRow) × (split_once 46 val
        ≡ some (sid_b64, sig_b64))
      × (c.decode_text sid_b64 ≡ some sid)
      × (c.decode_bytes sig_b64 ≡ some (c.tag_of sid))
      × (find_session sid rows ≡ some row)
      × (row.user_id ≡ user_id)
      × (row.is_admin ≡ is_admin)
      × (row.expires_at ≡ some end)
      × (now ≤ end)
unfolding current_user_id
current_user_id_sound c fails now val rows user_id is_admin won =
    elim (Option-cases (parse_and_verify_cookie c val)) [
      | inl unsigned ↦ absurd (ground arith)
      | inr (sid, signed) ↦ elim (Option-cases (find_session sid rows)) [
        | inl missing ↦ absurd (ground arith)
        | inr (row, listed) ↦ elim (Option-cases row.expires_at) [
          | inl garbled ↦ absurd (ground arith)
          | inr (end, until) ↦
              let (a, b, cut, text, tag) = parse-some c val signed in
              (
                sid,
                a,
                b,
                end,
                row,
                cut,
                text,
                tag,
                listed,
                ground arith,
                ground arith,
                until,
                ground arith,
              )
        ]
      ]
    ]

-- A cookie with which `destroy_session` was called stands for nobody afterwards, if the statement that
-- deletes its session does not fail, and the browser has none any more.
pub destroy_session_ends :
    (c : Crypto) (fails fails' : Query → Bool) (now : ℕ) (val : String) (rows : List SessionRow)
    → fails Query.delete ≡ false
    → let (cookie, rows') = destroy_session c fails (some val) rows in
      (cookie ≡ none) × ((current_user_id c fails' now (some val) rows').0 ≡ none)
unfolding destroy_session current_user_id
destroy_session_ends c fails fails' now val rows works =
    elim (Option-cases (parse_and_verify_cookie c val)) [
      | inl unsigned ↦ (ground arith, ground arith)
      | inr (sid, signed) ↦
          let gone = find_session-delete_session fails sid rows works in
          (ground arith, ground (arith, signed, gone))
    ]
