-- ===== src/Middleware.antt =====
-- src/middleware.rs: the guard against cross-site requests, the rate limit and the headers of an
-- answer. Header values are those that `to_str` accepts; the process's clock counts nanoseconds.
pub mod Limit
pub mod Guard
pub mod Headers
use Prim.Native.String
use text.Mathlib.Text.{starts_with}
use ppv_stream_rust.Prelude.{
  ℕ, ◌*◌, ◌-◌, ◌^◌, String, Bool, true, false, not, ◌&&◌, ◌||◌, Option, none, some, List, [], ◌∷◌,
  ◌++◌, ◌==◌, if◌then◌else◌, ltb, leb, length,
}
use ppv_stream_rust.Text.{trim, trim_end_matches, to_ascii_lowercase, contains, before, is_char}

pub data Method : Type 0 where
  get head post put patch delete options : Method

pub record Request : Type 0 where
  pub method : Method
  pub path : String
  pub headers : String → Option String

abbrev pub is_post : Method → Bool
is_post Method.post = true
is_post _ = false

abbrev pub changes_state : Method → Bool
changes_state Method.post = true
changes_state Method.put = true
changes_state Method.patch = true
changes_state Method.delete = true
changes_state _ = false

-- `.map(f).unwrap_or(false)`
abbrev pub is_some_and : Option String → (String → Bool) → Bool
is_some_and none f = false
is_some_and (some v) f = f v

unfoldable pub has_session_cookie : Request → Bool
has_session_cookie req = is_some_and (req.headers "cookie") (λ v. contains v "ppv_session=")

unfoldable pub normalize : String → String
normalize value = to_ascii_lowercase (trim_end_matches (is_char 47) (trim value))

unfoldable pub same_origin : String → String → Bool
same_origin candidate base_url =
    let expected = normalize base_url in
    let current = normalize candidate in
    current == expected || starts_with current (String.◌++◌ expected "/")

unfoldable pub should_enforce_same_origin : Request → Bool
should_enforce_same_origin req =
    changes_state req.method && has_session_cookie req && not (starts_with req.path "/api/pay/")

-- `browser_csrf_guard`: whether the request goes on to its handler.
unfoldable pub browser_csrf_guard : String → Request → Bool
browser_csrf_guard base_url req =
    let origin_ok = is_some_and (req.headers "origin") (λ v. same_origin v base_url) in
    let referer_ok = is_some_and (req.headers "referer") (λ v. same_origin v base_url) in
    not (should_enforce_same_origin req && not origin_ok && not referer_ok)

unfoldable pub should_rate_limit : String → Method → Bool
should_rate_limit path method =
    is_post method
    && (path == "/auth/login"
        || path == "/admin/login"
        || path == "/auth/register"
        || path == "/auth/forgot"
        || path == "/setup_admin"
        || path == "/api/change_password"
        || path == "/admin/change_password")

unfoldable pub should_default_no_store : String → Bool
should_default_no_store path = not (
    starts_with path "/public/"
    || starts_with path "/static_hls/"
    || path == "/"
    || path == "/browse"
    || path == "/dashboard"
    || path == "/health")

-- The last resort of `client_fingerprint`.
abbrev pub by_user_agent : Option String → String
by_user_agent none = "unknown"
by_user_agent (some v) = if trim v == "" then "unknown" else String.◌++◌ "ua:" v

abbrev pub by_real_ip : Option String → String → String
by_real_ip none other = other
by_real_ip (some v) other = if trim v == "" then other else trim v

abbrev pub by_forwarded : Option String → String → String
by_forwarded none other = other
by_forwarded (some v) other = let ip = trim (before 44 v) in if ip == "" then other else ip

unfoldable pub client_fingerprint : Request → Bool → String
client_fingerprint req trust_proxy_headers =
    let by_agent = by_user_agent (req.headers "user-agent") in
    if trust_proxy_headers
    then by_forwarded (req.headers "x-forwarded-for")
        (by_real_ip (req.headers "x-real-ip") by_agent)
    else by_agent

-- `RATE_LIMIT_WINDOW`, 300 seconds, and `RATE_LIMIT_MAX_ATTEMPTS`
abbrev pub rate_limit_window : ℕ
rate_limit_window = 300 * 10 ^ 9

abbrev pub rate_limit_max_attempts : ℕ
rate_limit_max_attempts = 20

-- `RATE_LIMIT_STORE`, with an empty bucket for a key that it lacks
abbrev pub Buckets : Type 0
Buckets = String → List ℕ

-- The loop that pops what has left the window from the front, oldest first; `duration_since` is 0 for
-- a later instant.
unfoldable pub expire : ℕ → List ℕ → List ℕ
expire now [] = []
expire now (t ∷ ts) =
    let rest = expire now ts in if ltb rate_limit_window (now - t) then rest else t ∷ ts

abbrev pub put_bucket : String → List ℕ → Buckets → Buckets
put_bucket key b store k = if key == k then b else store k

abbrev pub rate_key : Request → Bool → String
rate_key req trust = String.◌++◌ req.path (String.◌++◌ ":" (client_fingerprint req trust))

-- `basic_rate_limit` at time `now`: whether the request goes on, and the buckets afterwards.
unfoldable pub basic_rate_limit : Bool → Request → ℕ → Buckets → Bool × Buckets
basic_rate_limit trust req now store =
    let key = rate_key req trust in
    let bucket = expire now (store key) in
    if should_rate_limit req.path req.method
    then (if leb rate_limit_max_attempts (length bucket)
        then (false, put_bucket key bucket store)
        else (true, put_bucket key (bucket ++ now ∷ []) store))
    else (true, store)

abbrev pub Headers : Type 0
Headers = String → Option String

abbrev pub insert_header : String → String → Headers → Headers
insert_header name value hs n = if name == n then some value else hs n

abbrev pub is_missing : Option String → Bool
is_missing none = true
is_missing (some v) = false

-- `security_headers`, on the headers that the handler has answered.
unfoldable pub security_headers : String → Headers → Headers
security_headers path hs =
    let hs' = insert_header "cross-origin-resource-policy" "same-origin" (
      insert_header "cross-origin-opener-policy" "same-origin" (
        insert_header "permissions-policy" "camera=(), microphone=(), geolocation=()" (
          insert_header "referrer-policy" "strict-origin-when-cross-origin" (
            insert_header "x-content-type-options" "nosniff"
              (insert_header "x-frame-options" "DENY" hs))))) in
    if is_missing (hs' "cache-control") && should_default_no_store path
    then insert_header "cache-control" "no-store" hs'
    else hs'
