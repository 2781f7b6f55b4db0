-- ===== src/Sessions.antt =====
-- src/sessions.rs: signed session cookies and the table `sessions`. Base64, the HMAC under the server's
-- secret and the new UUID are parameters; the clock counts nanoseconds.
pub mod Cookie
pub mod Lifetime
use Prim.Native.Char.{code}
use Prim.Native.String
use ppv_stream_rust.Prelude.{
  ℕ, ◌+◌, ◌*◌, String, Bool, true, false, ◌||◌, Option, none, some, List, [], ◌∷◌, ◌==◌, nat_eq,
  ltb, is_some, if◌then◌else◌,
}
use Prim.Native.Nat.{max}
use ppv_stream_rust.Text.{split_once}

-- Base64 of a text and of bytes, and back; a text that is no base64, or no UTF-8, is `none`. `tag_of` is
-- the HMAC of a text, as bytes.
pub record Crypto : Type 0 where
  pub encode_text : String → String
  pub decode_text : String → Option String
  pub encode_bytes : List ℕ → String
  pub decode_bytes : String → Option (List ℕ)
  pub tag_of : String → List ℕ

-- `sessions`; `id` is the primary key. `expires_at` is a text, here the time that it is parsed to, or
-- `none` where it is not parsed.
pub record SessionRow : Type 0 where
  pub id : String
  pub user_id : String
  pub is_admin : Bool
  pub expires_at : Option ℕ

-- The statements of the module.
pub data Query : Type 0 where
  insert delete select : Query

abbrev pub bytes_eq : List ℕ → List ℕ → Bool
bytes_eq [] [] = true
bytes_eq [] (y ∷ ys) = false
bytes_eq (x ∷ xs) [] = false
bytes_eq (x ∷ xs) (y ∷ ys) = if nat_eq x y then bytes_eq xs ys else false

-- `build_cookie_value`
unfoldable pub build_cookie_value : Crypto → String → String
build_cookie_value c sid =
    String.◌++◌ (c.encode_text sid) (String.◌++◌ "." (c.encode_bytes (c.tag_of sid)))

-- The session that a cookie names, if its signature is the one of that session.
abbrev verified_sid : Crypto → Option String → Option (List ℕ) → Option String
verified_sid c none provided = none
verified_sid c (some sid) none = none
verified_sid c (some sid) (some provided) =
    if bytes_eq (c.tag_of sid) provided then some sid else none

-- `parse_and_verify_cookie`
unfoldable pub parse_and_verify_cookie : Crypto → String → Option String
parse_and_verify_cookie c val = elim (split_once 46 val) [
  | none ↦ none
  | some (sid_b64, sig_b64) ↦ verified_sid c (c.decode_text sid_b64) (c.decode_bytes sig_b64)
]

unfoldable pub find_session : String → List SessionRow → Option SessionRow
find_session sid [] = none
find_session sid (r ∷ rs) = if r.id == sid then some r else find_session sid rs

-- DELETE FROM sessions WHERE id = $1, whose result is not looked at
unfoldable pub delete_session : (Query → Bool) → String → List SessionRow → List SessionRow
delete_session fails sid [] = []
delete_session fails sid (r ∷ rs) =
    let rest = delete_session fails sid rs in
    if r.id == sid then (if fails Query.delete then r ∷ rest else rest) else r ∷ rest

abbrev pub second : ℕ
second = 1000000000

-- The time when a session that is made now ends: its time to live is at least a minute.
unfoldable pub expiry : ℕ → ℕ → ℕ
expiry ttl_secs now = now + max ttl_secs 60 * second

-- `create_session`: the table and the cookie that is set, or an error of the statement. The browser's
-- cookie is an argument, and stays as it was where the statement fails.
unfoldable pub create_session :
    Crypto
    → (Query → Bool)
    → ℕ
    → ℕ
    → String
    → String
    → Bool
    → Option String
    → List SessionRow
    → Bool × (Option String × List SessionRow)
create_session c fails ttl_secs now sid user_id is_admin cookie rows =
    if fails Query.insert || is_some (find_session sid rows) then (false, (cookie, rows)) else (
      true,
      (
        some (build_cookie_value c sid),
        record {
          id = sid;
          user_id = user_id;
          is_admin = is_admin;
          expires_at = some (expiry ttl_secs now);
        }
            ∷ rows,
      ),
    )

-- `destroy_session`: the cookie is removed, and the session too if the cookie is valid.
unfoldable pub destroy_session :
    Crypto → (Query → Bool) → Option String → List SessionRow → Option String × List SessionRow
destroy_session c fails none rows = (none, rows)
destroy_session c fails (some val) rows = elim (parse_and_verify_cookie c val) [
  | none ↦ (none, rows)
  | some sid ↦ (none, delete_session fails sid rows)
]

-- What the row of a session says at a time: an expired session is deleted.
abbrev judged :
    (Query → Bool)
    → ℕ
    → String
    → SessionRow
    → List SessionRow
    → Option (String × Bool) × List SessionRow
judged fails now sid r rows = elim r.expires_at [
  | none ↦ (none, rows)
  | some end ↦
      if ltb end now
      then (none, delete_session fails sid rows)
      else (some (r.user_id, r.is_admin), rows)
]

-- `current_user_id`: the user of the request's cookie and whether it is an administrator.
unfoldable pub current_user_id :
    Crypto
    → (Query → Bool)
    → ℕ
    → Option String
    → List SessionRow
    → Option (String × Bool) × List SessionRow
current_user_id c fails now none rows = (none, rows)
current_user_id c fails now (some val) rows = elim (parse_and_verify_cookie c val) [
  | none ↦ (none, rows)
  | some sid ↦ if fails Query.select then (none, rows) else elim (find_session sid rows) [
    | none ↦ (none, rows)
    | some r ↦ judged fails now sid r rows
  ]
]
