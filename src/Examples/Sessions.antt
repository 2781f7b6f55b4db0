-- ===== src/Examples/Sessions.antt =====
-- The theorems on sessions, at a session of alice.
use ppv_stream_rust.Prelude.{
  ℕ, ◌+◌, ◌≤◌, String, ◌≡◌, refl, Bool, false, none, some, [], ◌∷◌, ltb, if◌then◌else◌,
}
use ppv_stream_rust.Text.{split_once, contains_char}
use ppv_stream_rust.Sessions.{
  Crypto, SessionRow, Query, parse_and_verify_cookie, find_session, expiry, create_session,
  current_user_id,
}
use ppv_stream_rust.Sessions.Lifetime.{create_session_lasts, current_user_id_sound}

abbrev works : Query → Bool
works _ = false

-- Texts stand for themselves, and every tag is one byte.
abbrev plain : Crypto
plain = record {
  encode_text = λ t. t;
  decode_text = λ t. some t;
  encode_bytes = λ b. "x";
  decode_bytes = λ t. some (7 ∷ []);
  tag_of = λ t. 7 ∷ [];
}

abbrev row : SessionRow
row = record { id = "s"; user_id = "a"; is_admin = false; expires_at = some 100 }

create_session_lasts_example :
    let (made, (cookie, rows)) = create_session plain works 3600 5 "s" "a" false none [] in
    ((current_user_id plain works 9 cookie rows).0
      ≡ (if ltb (expiry 3600 5) 9 then none else some ("a", false)))
    × (5 + 60000000000 ≤ expiry 3600 5)
unfolding create_session find_session contains_char
create_session_lasts_example =
    create_session_lasts plain works works 3600 5 9 "s" "a" false none []
      (record { text_back = refl; bytes_back = refl; no_dot = refl }) refl refl

current_user_id_sound_example :
    (sid sid_b64 sig_b64 : String) × (end : ℕ) × (r : SessionRow) × (split_once 46 "s.x"
      ≡ some (sid_b64, sig_b64))
    × (plain.decode_text sid_b64 ≡ some sid)
    × (plain.decode_bytes sig_b64 ≡ some (plain.tag_of sid))
    × (find_session sid (row ∷ []) ≡ some r)
    × (r.user_id ≡ "a")
    × (r.is_admin ≡ false)
    × (r.expires_at ≡ some end)
    × (9 ≤ end)
unfolding current_user_id parse_and_verify_cookie find_session split_once
current_user_id_sound_example = current_user_id_sound plain works 9 "s.x" (row ∷ []) "a" false refl
