-- ===== src/Accounts/Change.antt =====
-- What a change of password does: `change_password` and `admin_change_password`.
use ppv_stream_rust.Prelude.{
  String, ◌≡◌, ◌≢◌, refl, Bool, true, Option, some, none, List, [], ◌∷◌, arith, ◌==◌, eq_iff, inl,
  inr, Bool-cases, Option-cases,
}
use ppv_stream_rust.Prelude.Attempt.{done}
use ppv_stream_rust.Wallet.{Session}
use ppv_stream_rust.Accounts.{
  Account, Hasher, Query, Realm, find_account, set_password, check_password, change_password,
  valid_password,
}
use ppv_stream_rust.Accounts.Reset.{find_account-set_password}

abbrev with_key : String → Option Account → Option Account
with_key key none = none
with_key key (some a) = some (record a { password_hash = some key })

find_account-set_password_same :
    (key id : String) (as' : List Account)
    → find_account id (set_password key id as') ≡ with_key key (find_account id as')
unfolding find_account set_password
find_account-set_password_same key id [] = refl
find_account-set_password_same key id (a ∷ as') = elim (Bool-cases (a.id == id)) [
  | inl here ↦ ground (arith, here)
  | inr there ↦ ground (arith, there, find_account-set_password_same key id as')
]

module _ (by_admin : Bool) (h : Hasher) (fails : Query → Bool) (user : Session)
    (current new : String) (s s' : Realm) where
  -- Whatever statements fail: a password is only changed for a logged in user, an administrator where
  -- that is asked for, whose hash Argon2 accepts the current password for, and to another password of at
  -- least 8 bytes. Then the account has the new password's hash and is otherwise as it was, so is every
  -- other account, and all sessions stay, also the other sessions of the user.
  pub change_password_changes :
      change_password by_admin h fails user current new s ≡ done s'
      → (uid : String) × (admin : Bool) × (a : Account) × (key key' : String) × (user
          ≡ some (uid, admin))
        × (by_admin ≡ true → admin ≡ true)
        × (find_account uid s.accounts ≡ some a)
        × (a.password_hash ≡ some key)
        × (h.verify key current ≡ some true)
        × (valid_password new ≡ true)
        × (new ≢ current)
        × (h.hash new ≡ some key')
        × (find_account uid s'.accounts ≡ some (record a { password_hash = some key' }))
        × ((other : String)
            → other ≢ uid
            → find_account other s'.accounts ≡ find_account other s.accounts)
        × (s'.sessions ≡ s.sessions)
  unfolding change_password check_password
  change_password_changes won = elim (Option-cases user) [
    | inl out ↦ absurd (ground arith)
    | inr ((uid, admin), logged) ↦ elim (Option-cases (find_account uid s.accounts)) [
      | inl missing' ↦ absurd (ground arith)
      | inr (a, found) ↦ elim (Option-cases a.password_hash) [
        | inl unset ↦ absurd (ground arith)
        | inr (key, has) ↦ elim (Option-cases (h.hash new)) [
          | inl broken ↦ absurd (ground arith)
          | inr (key', made) ↦
              let accounts : s'.accounts ≡ set_password key' uid s.accounts = ground arith in
              (
                uid,
                admin,
                a,
                key,
                key',
                logged,
                λ asked. ground arith,
                found,
                has,
                ground arith,
                ground arith,
                λ same. absurd (ground (arith, eq_iff current new)),
                made,
                rw (accounts, find_account-set_password_same key' uid s.accounts, found) refl,
                λ other ne. rw accounts (find_account-set_password key' uid other s.accounts ne),
                ground arith,
              )
        ]
      ]
    ]
  ]
