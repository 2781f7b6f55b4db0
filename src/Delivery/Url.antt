-- ===== src/Delivery/Url.antt =====
-- URLs are taken apart into host and path, and put together again.
use Prim.Native.Char.{code}
use Prim.Native.String
use Prim.Native.String.append
use Prim.Native.String.{[], ◌∷◌}
use ppv_stream_rust.Prelude.{
  ℕ, String, ◌≡◌, refl, Bool, true, false, some, arith, if◌then◌else◌, ◌==◌, nat_eq, ◌∙◌, ap,
  Bool-cases, inl, inr,
}
use ppv_stream_rust.Text.{strip_prefix, before, from_first, contains_char}
use ppv_stream_rust.Delivery.{parse_url_host_path, target_domain}

infixr 5 ◌<>◌
abbrev ◌<>◌ : String → String → String
s <> t = String.◌++◌ s t

strip_prefix-append : (p s : String) → strip_prefix (p <> s) p ≡ some s
unfolding strip_prefix
strip_prefix-append [] s = rw (append.nil s) refl
strip_prefix-append (c ∷ p) s = rw (append.cons c p s) (ground (arith, strip_prefix-append p s))

before-append :
    (n : ℕ) (host path : String)
    → contains_char host n ≡ false
    → before n path ≡ []
    → before n (host <> path) ≡ host
unfolding before contains_char
before-append n [] path h k = rw (append.nil path) k
before-append n (c ∷ host) path h k =
    rw (append.cons c host path) (ground (arith, before-append n host path))

from_first-append :
    (n : ℕ) (host path : String)
    → contains_char host n ≡ false
    → from_first n (host <> path) ≡ from_first n path
unfolding from_first contains_char
from_first-append n [] path h = rw (append.nil path) refl
from_first-append n (c ∷ host) path h =
    rw (append.cons c host path) (ground (arith, from_first-append n host path))

abbrev is_filled : String → Bool
is_filled [] = false
is_filled (c ∷ s) = true

from_first_all : (n : ℕ) (path : String) → before n path ≡ [] → from_first n path ≡ path
unfolding from_first before
from_first_all n [] h = refl
from_first_all n (c ∷ path) h = elim (Bool-cases (nat_eq (code c) n)) [
  | inl here ↦ rw (here, from_first) refl
  | inr later ↦
      let h' : (c ∷ before n path) ≡ "" = ground arith in
      let t : true ≡ false = ap is_filled h' in absurd (ground arith)
]

-- An https URL made of a host without a slash and a path that is empty or starts with a slash is taken
-- apart into that host and that path, `/` for an empty one, and the domain that the block rules are
-- asked for is that host.
pub parse_url_host_path_parts :
    (host path : String)
    → contains_char host 47 ≡ false
    → before 47 path ≡ ""
    → let url = "https://" <> host <> path in
      (parse_url_host_path url ≡ some (host, if path == "" then "/" else path))
      × (target_domain url ≡ host)
unfolding parse_url_host_path
parse_url_host_path_parts host path h k =
    let bare = strip_prefix-append "https://" (host <> path) in
    let front = before-append 47 host path h k in
    let back = from_first-append 47 host path h ∙ from_first_all 47 path k in
    (rw (bare, parse_url_host_path) (rw (front, back) refl), rw (bare, target_domain) front)
