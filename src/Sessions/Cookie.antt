-- ===== src/Sessions/Cookie.antt =====
-- A cookie that was built is read again.
use Prim.Native.Char.{Char, code}
use Prim.Native.String.{[], ◌∷◌}
use Prim.Native.String
use Prim.Native.String.append
use ppv_stream_rust.Prelude.{
  ℕ, String, ◌≡◌, refl, inl, inr, true, false, some, List, arith, nat_eq, Option-cases,
}
use ppv_stream_rust.Text.{split_once, contains_char}
use ppv_stream_rust.Sessions.{Crypto, bytes_eq, build_cookie_value, parse_and_verify_cookie}

split_once-append :
    (n : ℕ) (c : Char) (a b : String)
    → nat_eq (code c) n ≡ true
    → contains_char a n ≡ false
    → split_once n (String.◌++◌ a (c ∷ b)) ≡ some (a, b)
unfolding split_once contains_char
split_once-append n c [] b hit clean = rw append.nil (ground arith)
split_once-append n c (d ∷ a) b hit clean =
    let rest = split_once-append n c a b hit (ground arith) in rw append.cons (ground (arith, rest))

dot-append : (t : String) → String.◌++◌ "." t ≡ (String.◌∷◌ "." t)
dot-append t = rw (append.cons, append.nil) refl

-- What the code relies on of its libraries for a session: Base64 is read back, and has no dot.
pub record IsFaithful (c : Crypto) (sid : String) : Type 0 where
  pub text_back : c.decode_text (c.encode_text sid) ≡ some sid
  pub bytes_back : c.decode_bytes (c.encode_bytes (c.tag_of sid)) ≡ some (c.tag_of sid)
  pub no_dot : contains_char (c.encode_text sid) 46 ≡ false

bytes_eq_refl : (b : List ℕ) → bytes_eq b b ≡ true
bytes_eq_refl List.[] = refl
bytes_eq_refl (List.◌∷◌ x b) = ground (arith, bytes_eq_refl b)

pub parse-build :
    (c : Crypto) (sid : String)
    → IsFaithful c sid
    → parse_and_verify_cookie c (build_cookie_value c sid) ≡ some sid
unfolding parse_and_verify_cookie build_cookie_value
parse-build c sid f =
    let sig = c.encode_bytes (c.tag_of sid) in
    let cut = split_once-append 46 "." (c.encode_text sid) sig refl f.no_dot in
    rw
      (
        dot-append sig,
        parse_and_verify_cookie,
        cut,
        f.text_back,
        f.bytes_back,
        bytes_eq_refl (c.tag_of sid),
      )
      refl

bytes_eq-eq : (a b : List ℕ) → bytes_eq a b ≡ true → a ≡ b
bytes_eq-eq List.[] List.[] h = refl
bytes_eq-eq List.[] (List.◌∷◌ y ys) h = cc
bytes_eq-eq (List.◌∷◌ x xs) List.[] h = cc
bytes_eq-eq (List.◌∷◌ x xs) (List.◌∷◌ y ys) h =
    let rest = bytes_eq-eq xs ys (ground arith) in ground (arith, rest)

-- What a cookie that is accepted holds.
pub parse-some :
    (c : Crypto) (val : String) {sid : String}
    → parse_and_verify_cookie c val ≡ some sid
    → (sid_b64 sig_b64 : String) × (split_once 46 val ≡ some (sid_b64, sig_b64))
      × (c.decode_text sid_b64 ≡ some sid)
      × (c.decode_bytes sig_b64 ≡ some (c.tag_of sid))
unfolding parse_and_verify_cookie
parse-some c val {sid} h = elim (Option-cases (split_once 46 val)) [
  | inl whole ↦ absurd (ground arith)
  | inr ((a, b), cut) ↦ elim (Option-cases (c.decode_text a)) [
    | inl garbled ↦ absurd (ground arith)
    | inr (t, text) ↦ elim (Option-cases (c.decode_bytes b)) [
      | inl garbled ↦ absurd (ground arith)
      | inr (tag, bytes) ↦
          let same : t ≡ sid = ground arith in
          let equal = bytes_eq-eq (c.tag_of t) tag (ground arith) in
          (a, b, cut, rw (← same) text, ground (arith, bytes, equal, same))
    ]
  ]
]
