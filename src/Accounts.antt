-- ===== src/Accounts.antt =====
-- src/handlers/auth_user.rs, src/handlers/auth_admin.rs and src/validators.rs: registration, login and
-- passwords. Argon2 and the new UUIDs are parameters; mail is left out.
pub mod Rounds
pub mod Reset
pub mod Change
use Prim.Native.Char.{Char, code}
use Prim.Native.String
use ppv_stream_rust.Prelude.{
  ℕ, ◌+◌, ◌*◌, String, Bool, true, false, not, ◌&&◌, ◌||◌, Option, none, some, List, [], ◌∷◌, ◌==◌,
  leb, ltb, nat_eq, is_some, if◌then◌else◌,
}
use ppv_stream_rust.Prelude.Attempt.{Attempt, done, stopped, ◌>>=◌, ◌>>◌, or_stop, stop_if}
use ppv_stream_rust.Text.{trim, to_ascii_lowercase, is_whitespace, is_char, all_chars, split_once}
use ppv_stream_rust.Wallet.{Session}
use ppv_stream_rust.Sessions
use ppv_stream_rust.Sessions.{Crypto, SessionRow, create_session, second}

-- `users`, whose `id`, `username` and `email` are unique
pub record Account : Type 0 where
  pub id : String
  pub username : String
  pub email : String
  pub password_hash : Option String
  pub is_admin : Bool

-- `password_resets`; `expires_at` is the time that its text is parsed to, or none.
pub record ResetRow : Type 0 where
  pub user_id : String
  pub token : String
  pub expires_at : Option ℕ
  pub used : Bool

pub record Realm : Type 0 where
  pub accounts : List Account
  pub resets : List ResetRow
  pub sessions : List SessionRow

pub data Query : Type 0 where
  select_email insert_user select_account select_token update_password spend_token insert_reset :
      Query

-- Argon2: the hash of a password under a new salt, and whether a password has a hash; none where the
-- hash cannot be read.
pub record Hasher : Type 0 where
  pub hash : String → Option String
  pub verify : String → String → Option Bool

pub data AuthError : Type 0 where
  missing_field invalid_email weak_password email_taken server_error bad_credentials : AuthError
  not_admin invalid_token token_used token_expired not_logged_in same_password : AuthError
  user_not_found wrong_password : AuthError

-- The bytes of a character in UTF-8, and `str::len`
abbrev char_bytes : Char → ℕ
char_bytes c =
    let n = code c in
    if ltb n 128 then 1 else if ltb n 2048 then 2 else if ltb n 65536 then 3 else 4

unfoldable pub byte_length : String → ℕ
byte_length String.[] = 0
byte_length (String.◌∷◌ c s) = char_bytes c + byte_length s

unfoldable pub valid_password : String → Bool
valid_password s = leb 8 (byte_length s)

-- A dot with something behind it
unfoldable pub dot_before_end : String → Bool
dot_before_end String.[] = false
dot_before_end (String.◌∷◌ c s) = (is_char 46 c && not (s == "")) || dot_before_end s

abbrev after_first : String → Bool
after_first String.[] = false
after_first (String.◌∷◌ c s) = dot_before_end s

abbrev is_plain : Char → Bool
is_plain c = not (is_char 64 c) && not (is_whitespace c)

-- `^[^@\s]+@[^@\s]+\.[^@\s]+$`: no white space, one `@` with something before it, and behind it a dot
-- between two characters.
unfoldable pub valid_email : String → Bool
valid_email s = elim (split_once 64 s) [
  | none ↦ false
  | some (user, host) ↦
      not (user == "") && all_chars is_plain user && all_chars is_plain host && after_first host
]

unfoldable pub find_email : String → List Account → Option Account
find_email e [] = none
find_email e (a ∷ as') = if a.email == e then some a else find_email e as'

unfoldable pub find_account : String → List Account → Option Account
find_account id [] = none
find_account id (a ∷ as') = if a.id == id then some a else find_account id as'

abbrev clashes : Account → Account → Bool
clashes a b = a.id == b.id || a.username == b.username || a.email == b.email

unfoldable pub any_clash : Account → List Account → Bool
any_clash a [] = false
any_clash a (b ∷ bs) = clashes a b || any_clash a bs

unfoldable pub insert_account : (Query → Bool) → Account → Realm → Option Realm
insert_account fails a s =
    if fails Query.insert_user || any_clash a s.accounts
    then none
    else some (record s { accounts = a ∷ s.accounts })

abbrev is_blank : String → Bool
is_blank t = trim t == ""

unfoldable pub post_register :
    Hasher → (Query → Bool) → String → String → String → String → Realm → Attempt AuthError Realm
post_register h fails uid username email password s = do
  stop_if (is_blank username || is_blank email || is_blank password) missing_field
  stop_if (not (valid_email email)) invalid_email
  stop_if (not (valid_password password)) weak_password
  let lower = to_ascii_lowercase email
  stop_if (not (fails Query.select_email) && is_some (find_email lower s.accounts)) email_taken
  key ← or_stop (h.hash password) server_error
  or_stop
      (insert_account fails
        (record {
          id = uid;
          username = trim username;
          email = lower;
          password_hash = some key;
          is_admin = false;
        })
        s)
      server_error

-- The password against the account's hash.
unfoldable pub check_password : Hasher → Account → String → AuthError → Attempt AuthError (Unit {0})
check_password h a password wrong = elim a.password_hash [
  | none ↦ stopped wrong
  | some key ↦ elim (h.verify key password) [
    | none ↦ stopped server_error
    | some fits ↦ stop_if (not fits) wrong
  ]
]

-- What a login takes from the surroundings to make its session.
pub record Entry : Type 0 where
  pub crypto : Crypto
  pub fails : Sessions.Query → Bool
  pub ttl : ℕ
  pub now : ℕ
  pub sid : String
  pub cookie : Option String

-- The session of an account that has shown its password: the cookie, and the tables.
unfoldable pub enter : Entry → Account → Bool → Realm → Attempt AuthError (Option String × Realm)
enter e a admin s =
    let (made, (cookie, rows)) =
      create_session e.crypto e.fails e.ttl e.now e.sid a.id admin e.cookie s.sessions in
    if made then done (cookie, record s { sessions = rows }) else stopped server_error

unfoldable pub post_login :
    Hasher
    → Entry
    → (Query → Bool)
    → String
    → String
    → Realm
    → Attempt AuthError (Option String × Realm)
post_login h e fails email password s = do
  stop_if (is_blank email || is_blank password) missing_field
  stop_if (not (valid_email email)) invalid_email
  stop_if (fails Query.select_account) server_error
  a ← or_stop (find_email (to_ascii_lowercase email) s.accounts) bad_credentials
  check_password h a password bad_credentials
  enter e a false s

unfoldable pub post_admin_login :
    Hasher
    → Entry
    → (Query → Bool)
    → String
    → String
    → Realm
    → Attempt AuthError (Option String × Realm)
post_admin_login h e fails email password s = do
  stop_if (is_blank email || is_blank password) missing_field
  stop_if (fails Query.select_account) server_error
  a ← or_stop (find_email (to_ascii_lowercase email) s.accounts) bad_credentials
  stop_if (not a.is_admin) not_admin
  check_password h a password bad_credentials
  enter e a true s

-- UPDATE users SET password_hash = $1 WHERE id = $2
unfoldable pub set_password : String → String → List Account → List Account
set_password key id [] = []
set_password key id (a ∷ as') =
    (if a.id == id then record a { password_hash = some key } else a) ∷ set_password key id as'

-- `change_password`, and `admin_change_password` where `by_admin` holds.
unfoldable pub change_password :
    Bool → Hasher → (Query → Bool) → Session → String → String → Realm → Attempt AuthError Realm
change_password by_admin h fails user current new s = do
  (uid, admin) ← or_stop user not_logged_in
  stop_if (by_admin && not admin) not_admin
  stop_if (not (valid_password new)) weak_password
  stop_if (current == new) same_password
  stop_if (fails Query.select_account) user_not_found
  a ← or_stop (find_account uid s.accounts) user_not_found
  stop_if (not (is_some a.password_hash)) server_error
  check_password h a current wrong_password
  key ← or_stop (h.hash new) server_error
  stop_if (fails Query.update_password) server_error
  done (record s { accounts = set_password key uid s.accounts })

unfoldable pub find_reset : String → List ResetRow → Option ResetRow
find_reset t [] = none
find_reset t (r ∷ rs) = if r.token == t then some r else find_reset t rs

-- `post_forgot`, which answers the same whether there is such a user: the tables afterwards.
unfoldable pub post_forgot : (Query → Bool) → ℕ → String → String → Realm → Attempt AuthError Realm
post_forgot fails now token email s = do
  stop_if (not (valid_email email)) invalid_email
  let user =
      if fails Query.select_account then none else find_email (to_ascii_lowercase email) s.accounts
  done (elim user [
    | none ↦ s
    | some a ↦
        if fails Query.insert_reset || is_some (find_reset token s.resets) then s else record s {
          resets =
              record {
                user_id = a.id;
                token = token;
                expires_at = some (now + 7200 * second);
                used = false;
              }
              ∷ s.resets;
        }
  ])

-- UPDATE password_resets SET used = 1 WHERE token = $1
unfoldable pub mark_used : String → List ResetRow → List ResetRow
mark_used t [] = []
mark_used t (r ∷ rs) = (if r.token == t then record r { used = true } else r) ∷ mark_used t rs

-- `post_reset`; the result of the last statement is not looked at.
unfoldable pub post_reset :
    Hasher → (Query → Bool) → ℕ → String → String → Realm → Attempt AuthError Realm
post_reset h fails now token password s = do
  stop_if (not (valid_password password)) weak_password
  stop_if (fails Query.select_token) server_error
  r ← or_stop (find_reset token s.resets) invalid_token
  stop_if r.used token_used
  end ← or_stop r.expires_at invalid_token
  stop_if (ltb end now) token_expired
  key ← or_stop (h.hash password) server_error
  stop_if (fails Query.update_password) server_error
  done (record s {
    accounts = set_password key r.user_id s.accounts;
    resets = if fails Query.spend_token then s.resets else mark_used token s.resets;
  })
