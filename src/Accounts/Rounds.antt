-- ===== src/Accounts/Rounds.antt =====
-- Registration, login and the session that the login makes.
use ppv_stream_rust.Prelude.{
  ℕ, String, ◌≡◌, refl, ap, ◌∙◌, Bool, true, false, Option, some, none, arith, ◌==◌, str_refl, ltb,
  inl, inr, if◌then◌else◌, Option-cases,
}
use ppv_stream_rust.Prelude.Attempt.{done}
use ppv_stream_rust.Text.{trim, to_ascii_lowercase}
use ppv_stream_rust.Sessions.{find_session, expiry, create_session, current_user_id}
use ppv_stream_rust.Sessions
use ppv_stream_rust.Sessions.Cookie.{IsFaithful}
use ppv_stream_rust.Sessions.Lifetime.{create_session_lasts}
use ppv_stream_rust.Accounts.{
  Account, Hasher, Query, Realm, Entry, find_email, insert_account, post_register, check_password,
  enter, post_login, valid_email,
}

-- The account that a registration stores is found by its email.
module _ (h : Hasher) (fails : Query → Bool) (uid username email password : String)
    (s s' : Realm) where
  record Registered : Type 0 where
    pub key : String
    pub hashed : h.hash password ≡ some key
    pub account : Account
    pub stored : find_email (to_ascii_lowercase email) s'.accounts ≡ some account
    pub same_id : account.id ≡ uid
    pub same_hash : account.password_hash ≡ some key
    pub plain_user : account.is_admin ≡ false
    pub valid : valid_email email ≡ true
    pub given : (trim password == "") ≡ false
    pub addressed : (trim email == "") ≡ false
    pub sessions : s'.sessions ≡ s.sessions

  registered : post_register h fails uid username email password s ≡ done s' → Registered
  unfolding post_register insert_account find_email
  registered won = elim (Option-cases (h.hash password)) [
    | inl broken ↦ absurd (ground arith)
    | inr (key, made) ↦ record {
      key = key;
      hashed = made;
      account = record {
        id = uid;
        username = trim username;
        email = to_ascii_lowercase email;
        password_hash = some key;
        is_admin = false;
      };
      stored = ground (arith, str_refl (to_ascii_lowercase email));
      same_id = refl;
      same_hash = refl;
      plain_user = refl;
      valid = ground arith;
      given = ground arith;
      addressed = ground arith;
      sessions = ground arith;
    }
  ]

-- The session of a login: the cookie of `create_session` and its table.
enter-done :
    (e : Entry) (a : Account) (s : Realm)
    → e.fails Sessions.Query.insert ≡ false
    → find_session e.sid s.sessions ≡ none
    → let made = create_session e.crypto e.fails e.ttl e.now e.sid a.id false e.cookie s.sessions in
      (made.0 ≡ true) × (enter e a false s ≡ done (made.1.0, record s { sessions = made.1.1 }))
unfolding enter create_session
enter-done e a s works fresh = (ground arith, ground arith)

module _ (h : Hasher) (e : Entry) (fails : Query → Bool) (email password : String) (s : Realm) where
  login-enter :
      (a : Account) (key : String)
      → find_email (to_ascii_lowercase email) s.accounts ≡ some a
      → a.password_hash ≡ some key
      → h.verify key password ≡ some true
      → valid_email email ≡ true
      → (trim password == "") ≡ false
      → (trim email == "") ≡ false
      → fails Query.select_account ≡ false
      → post_login h e fails email password s ≡ enter e a false s
  unfolding post_login check_password
  login-enter a key stored has fits valid given addressed reads =
      rw (post_login, given, addressed, valid, reads, stored, check_password, has, fits) refl

-- If Argon2 accepts a password for the hash that it has made of it, and Base64 reads back what it has
-- written for the session: after a registration that succeeded, a login with the same email and
-- password succeeds where its statements do not fail and its session name is new; and the cookie that
-- it sets stands for the new user, who is no administrator, exactly until the session expires.
pub post_register-post_login :
    (h : Hasher) (fails fails' : Query → Bool) (uid username email password : String) (s s' : Realm)
    (e : Entry)
    → ((key : String) → h.hash password ≡ some key → h.verify key password ≡ some true)
    → IsFaithful e.crypto e.sid
    → post_register h fails uid username email password s ≡ done s'
    → fails' Query.select_account ≡ false
    → e.fails Sessions.Query.insert ≡ false
    → find_session e.sid s.sessions ≡ none
    → (cookie : Option String) × (s'' : Realm) × (post_login h e fails' email password s'
        ≡ done (cookie, s''))
      × ((fails'' : Sessions.Query → Bool) (later : ℕ)
          → fails'' Sessions.Query.select ≡ false
          → (current_user_id e.crypto fails'' later cookie s''.sessions).0
            ≡ (if ltb (expiry e.ttl e.now) later then none else some (uid, false)))
post_register-post_login h fails fails' uid username email password s s' e fits faithful won reads
      works fresh =
    let r = registered h fails uid username email password s s' won in
    let a = r.account in
    let fresh' : find_session e.sid s'.sessions ≡ none = rw r.sessions fresh in
    let (made, enters) = enter-done e a s' works fresh' in
    let made' = create_session e.crypto e.fails e.ttl e.now e.sid a.id false e.cookie s'.sessions in
    (
      made'.1.0,
      record s' { sessions = made'.1.1 },
      login-enter h e fails' email password s' a r.key r.stored r.same_hash (fits r.key r.hashed)
            r.valid r.given r.addressed reads
          ∙ enters,
      λ fails'' later reads''.
          let lasts =
            create_session_lasts e.crypto e.fails fails'' e.ttl e.now later e.sid a.id false
              e.cookie s'.sessions faithful made reads'' in
          lasts.0
          ∙ ap (λ i. if ltb (expiry e.ttl e.now) later then none else some (i, false)) r.same_id,
    )
