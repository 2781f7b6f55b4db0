-- ===== src/Middleware/Headers.antt =====
-- The headers that every answer carries.
use ppv_stream_rust.Prelude.{
  String, ◌≡◌, ◌≢◌, none, some, arith, eq_iff, if◌then◌else◌, List, [], ◌∷◌, All,
}
use ppv_stream_rust.Middleware.{Headers, security_headers, should_default_no_store}

-- What the middleware sets whatever the handler has answered.
abbrev pub hardening : List (String × String)
hardening =
    ("x-frame-options", "DENY")
    ∷ ("x-content-type-options", "nosniff")
    ∷ ("referrer-policy", "strict-origin-when-cross-origin")
    ∷ ("permissions-policy", "camera=(), microphone=(), geolocation=()")
    ∷ ("cross-origin-opener-policy", "same-origin")
    ∷ ("cross-origin-resource-policy", "same-origin")
    ∷ []

-- Every answer carries the six fixed headers, whatever the handler has set; a handler's own
-- Cache-Control is kept; without one, the answer is `no-store` unless its path is public; and no other
-- header is changed.
pub security_headers_complete :
    (path : String) (hs : Headers)
    → let hs' = security_headers path hs in
      All (λ (n, v). hs' n ≡ some v) hardening
      × ((v : String) → hs "cache-control" ≡ some v → hs' "cache-control" ≡ some v)
      × (hs "cache-control" ≡ none
          → hs' "cache-control" ≡ (if should_default_no_store path then some "no-store" else none))
      × ((n : String) → All (λ (m, v). m ≢ n) (("cache-control", "") ∷ hardening) → hs' n ≡ hs n)
unfolding security_headers
security_headers_complete path hs = (
  (
    ground arith,
    (ground arith, (ground arith, (ground arith, (ground arith, (ground arith, tt))))),
  ),
  λ v h. ground arith,
  λ h. ground arith,
  λ n ne. ground (
    arith,
    eq_iff "cache-control" n,
    eq_iff "x-frame-options" n,
    eq_iff "x-content-type-options" n,
    eq_iff "referrer-policy" n,
    eq_iff "permissions-policy" n,
    eq_iff "cross-origin-opener-policy" n,
    eq_iff "cross-origin-resource-policy" n,
  ),
)
