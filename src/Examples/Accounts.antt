-- ===== src/Examples/Accounts.antt =====
-- The theorems on accounts, at the account of a new user.
use ppv_stream_rust.Prelude.{
  ℕ, String, ◌≡◌, ◌≢◌, refl, Bool, true, false, none, some, [], ◌∷◌, ◌==◌, ltb, Option,
  if◌then◌else◌, arith, eq_iff,
}
use ppv_stream_rust.Prelude.Attempt.{done}
use ppv_stream_rust.Text.{
  trim, trim_start_matches, trim_end_matches, is_whitespace, to_ascii_lowercase, lower_char,
  split_once, all_chars, contains_char,
}
use ppv_stream_rust.Sessions
use ppv_stream_rust.Sessions.{Crypto, find_session, expiry, current_user_id}
use ppv_stream_rust.Accounts.{
  Account, Hasher, Query, Realm, ResetRow, Entry, find_account, find_reset, find_email,
  insert_account, any_clash, set_password, mark_used, post_register, post_login, post_reset,
  valid_email, valid_password, byte_length, dot_before_end,
}
use ppv_stream_rust.Wallet.{Session}
use ppv_stream_rust.Accounts.{change_password, check_password}
use ppv_stream_rust.Accounts.Change.{change_password_changes}
use ppv_stream_rust.Accounts.Rounds.{post_register-post_login}

abbrev works : Query → Bool
works _ = false

abbrev works' : Sessions.Query → Bool
works' _ = false

-- A password is its own hash.
abbrev clear : Hasher
clear = record { hash = λ p. some p; verify = λ key p. some (key == p) }

abbrev plain : Crypto
plain = record {
  encode_text = λ t. t;
  decode_text = λ t. some t;
  encode_bytes = λ b. "x";
  decode_bytes = λ t. some (7 ∷ []);
  tag_of = λ t. 7 ∷ [];
}

abbrev entry : Entry
entry = record { crypto = plain; fails = works'; ttl = 3600; now = 5; sid = "s"; cookie = none }

abbrev empty : Realm
empty = record { accounts = []; resets = []; sessions = [] }

abbrev erin : Account
erin = record {
  id = "e";
  username = "erin";
  email = "e@x.y";
  password_hash = some "longword";
  is_admin = false;
}

abbrev joined : Realm
joined = record empty { accounts = erin ∷ [] }

erin_joins : post_register clear works "e" " erin" "E@x.y" "longword" empty ≡ done joined
unfolding post_register insert_account any_clash find_email valid_email valid_password byte_length
    dot_before_end trim trim_start_matches trim_end_matches is_whitespace to_ascii_lowercase
    lower_char split_once all_chars
erin_joins = refl

post_register-post_login_example :
    (cookie : Option String) × (s'' : Realm) × (post_login clear entry works "E@x.y" "longword"
        joined
      ≡ done (cookie, s''))
    × ((fails'' : Sessions.Query → Bool) (later : ℕ)
        → fails'' Sessions.Query.select ≡ false
        → (current_user_id plain fails'' later cookie s''.sessions).0
          ≡ (if ltb (expiry 3600 5) later then none else some ("e", false)))
unfolding find_session contains_char
post_register-post_login_example =
    post_register-post_login clear works works "e" " erin" "E@x.y" "longword" empty joined entry
      (λ key q. ground (arith, q, eq_iff key "longword"))
      (record { text_back = refl; bytes_back = refl; no_dot = refl }) erin_joins refl refl refl

abbrev ticket : ResetRow
ticket = record { user_id = "e"; token = "t"; expires_at = some 100; used = false }

abbrev asked : Realm
asked = record joined { resets = ticket ∷ [] }

abbrev renewed : Realm
renewed = record asked {
  accounts = record erin { password_hash = some "new-word" } ∷ [];
  resets = record ticket { used = true } ∷ [];
}

erin_resets : post_reset clear works 9 "t" "new-word" asked ≡ done renewed
unfolding post_reset find_reset mark_used set_password valid_password byte_length
erin_resets = refl

abbrev new_word : String
new_word = "new-word"

abbrev old_word : String
old_word = "longword"

abbrev erin_session : Session
erin_session = some ("e", false)

abbrev changed : Realm
changed = record joined { accounts = record erin { password_hash = some "new-word" } ∷ [] }

erin_changes :
    change_password false clear works erin_session "longword" "new-word" joined ≡ done changed
unfolding change_password check_password find_account set_password valid_password byte_length
erin_changes = refl

change_password_changes_example :
    (uid : String) × (admin : Bool) × (a : Account) × (key key' : String) × (erin_session
      ≡ some (uid, admin))
    × (false ≡ true → admin ≡ true)
    × (find_account uid joined.accounts ≡ some a)
    × (a.password_hash ≡ some key)
    × (clear.verify key "longword" ≡ some true)
    × (valid_password "new-word" ≡ true)
    × (new_word ≢ old_word)
    × (clear.hash "new-word" ≡ some key')
    × (find_account uid changed.accounts ≡ some (record a { password_hash = some key' }))
    × ((other : String)
        → other ≢ uid
        → find_account other changed.accounts ≡ find_account other joined.accounts)
    × (changed.sessions ≡ joined.sessions)
change_password_changes_example =
    change_password_changes false clear works erin_session "longword" "new-word" joined changed
      erin_changes
