-- ===== src/Middleware/Guard.antt =====
-- Which requests `browser_csrf_guard` lets pass.
use text.Mathlib.TextEquality.{starts_with_iff}
use text.Mathlib.TextBridge.{IsPrefix}
use Prim.Native.String
use text.Mathlib.Text.{starts_with}
use ppv_stream_rust.Prelude.{
  String, ◌≡◌, ◌⊎◌, inl, inr, ◌↔◌, true, false, some, arith, ◌==◌, eq_iff, Bool-cases, Option-cases,
}
use ppv_stream_rust.Middleware.{
  Request, normalize, same_origin, is_some_and, changes_state, has_session_cookie,
  should_enforce_same_origin, browser_csrf_guard,
}

-- A value names the origin `base_url`, or something below it.
abbrev pub IsSameOrigin : String → String → Type 0
IsSameOrigin v base_url =
    (normalize v ≡ normalize base_url)
    ⊎ IsPrefix (String.◌++◌ (normalize base_url) "/") (normalize v)

same_origin_iff : (v base_url : String) → (same_origin v base_url ≡ true) ↔ IsSameOrigin v base_url
unfolding same_origin
same_origin_iff v base_url =
    let starts = starts_with_iff (normalize v) (String.◌++◌ (normalize base_url) "/") in
    let equal = eq_iff (normalize v) (normalize base_url) in
    (
      λ h. elim (Bool-cases (normalize v == normalize base_url)) [
        | inl same ↦ inl (equal.0 same)
        | inr other ↦ inr (starts.0 (ground arith))
      ],
      λ (h : IsSameOrigin v base_url). elim h [
        | inl same ↦ let e = equal.1 same in ground arith
        | inr below ↦ let e = starts.1 below in ground arith
      ],
    )

-- The header `name` of the request names the origin.
abbrev pub NamesOrigin : String → Request → String → Type 0
NamesOrigin base_url req name = (v : String) × (req.headers name ≡ some v) × IsSameOrigin v base_url

named_iff :
    (base_url : String) (req : Request) (name : String)
    → (is_some_and (req.headers name) (λ v. same_origin v base_url) ≡ true)
      ↔ NamesOrigin base_url req name
named_iff base_url req name = (
  λ h. elim (Option-cases (req.headers name)) [
    | inl missing ↦ absurd (ground arith)
    | inr (v, e) ↦ (v, e, (same_origin_iff v base_url).0 (ground arith))
  ],
  λ (v, e, same). rw e ((same_origin_iff v base_url).1 same),
)

-- A request passes the guard exactly if it changes no state, carries no session cookie or is for a
-- payment route, or if its Origin or its Referer header names the configured origin: equal to it once
-- both are trimmed, without slashes at the end and in lower case, or continuing it with a slash.
pub browser_csrf_guard_iff :
    (base_url : String) (req : Request)
    → (browser_csrf_guard base_url req ≡ true) ↔ (
        (changes_state req.method ≡ false)
        ⊎ (has_session_cookie req ≡ false)
        ⊎ (starts_with req.path "/api/pay/" ≡ true)
        ⊎ NamesOrigin base_url req "origin"
        ⊎ NamesOrigin base_url req "referer")
unfolding browser_csrf_guard should_enforce_same_origin
browser_csrf_guard_iff base_url req =
    let origin = named_iff base_url req "origin" in
    let referer = named_iff base_url req "referer" in
    (
      λ h. elim (Bool-cases (changes_state req.method)) [
        | inr a ↦ inl a
        | inl a ↦ elim (Bool-cases (has_session_cookie req)) [
          | inr b ↦ inr (inl b)
          | inl b ↦ elim (Bool-cases (starts_with req.path "/api/pay/")) [
            | inl c ↦ inr (inr (inl c))
            | inr c ↦
                elim (Bool-cases
                  (is_some_and (req.headers "origin") (λ v. same_origin v base_url))) [
                    | inl d ↦ inr (inr (inr (inl (origin.0 d))))
                    | inr d ↦ inr (inr (inr (inr (referer.0 (ground arith)))))
                  ]
          ]
        ]
      ],
      λ h. elim h [
        | inl a ↦ ground arith
        | inr (inl b) ↦ ground arith
        | inr (inr (inl c)) ↦ ground arith
        | inr (inr (inr (inl d))) ↦ let e = origin.1 d in ground arith
        | inr (inr (inr (inr d))) ↦ let e = referer.1 d in ground arith
      ],
    )
