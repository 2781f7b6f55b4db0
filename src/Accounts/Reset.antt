-- ===== src/Accounts/Reset.antt =====
-- A token resets a password once.
use ppv_stream_rust.Prelude.{
  ℕ, ◌≤◌, String, ◌≡◌, ◌≢◌, refl, Bool, true, false, some, List, [], ◌∷◌, arith, ◌==◌, eq_iff, inl,
  inr, Bool-cases, Option-cases,
}
use ppv_stream_rust.Prelude.Attempt.{done, stopped}
use ppv_stream_rust.Accounts.{
  Account, Hasher, Query, Realm, ResetRow, AuthError, find_account, find_reset, set_password,
  mark_used, post_reset, valid_password,
}

used_after :
    (t : String) (rs : List ResetRow) {r : ResetRow}
    → find_reset t rs ≡ some r
    → (r' : ResetRow) × (find_reset t (mark_used t rs) ≡ some r') × (r'.used ≡ true)
unfolding find_reset mark_used
used_after t [] h = cc
used_after t (x ∷ rs) {r} h = elim (Bool-cases (x.token == t)) [
  | inl here ↦ (record x { used = true }, ground (arith, here), refl)
  | inr there ↦
      let found : find_reset t rs ≡ some r = ground arith in
      let (r', again, used) = used_after t rs {r = r} found in
      (r', ground (arith, there, again), used)
]

pub find_account-set_password :
    (key id other : String) (as' : List Account)
    → other ≢ id
    → find_account other (set_password key id as') ≡ find_account other as'
unfolding find_account set_password
find_account-set_password key id other [] ne = refl
find_account-set_password key id other (a ∷ as') ne =
    ground (arith, eq_iff a.id id, eq_iff a.id other, find_account-set_password key id other as' ne)

module _ (h : Hasher) (fails : Query → Bool) (now : ℕ) (token password : String)
    (s s' : Realm) where
  -- Whatever statements fail: a password is only reset by a token that is stored, not used and not
  -- expired; every account but the token's has what it had; and all sessions stay, also those of the
  -- account. If the last statement works, the token is used from then on: every later reset with it is
  -- refused, at any time, for any password that is long enough, where its query does not fail.
  pub post_reset_once :
      post_reset h fails now token password s ≡ done s'
      → (r : ResetRow) × (end : ℕ) × (find_reset token s.resets ≡ some r)
        × (r.used ≡ false)
        × (r.expires_at ≡ some end)
        × (now ≤ end)
        × ((other : String)
            → other ≢ r.user_id
            → find_account other s'.accounts ≡ find_account other s.accounts)
        × (s'.sessions ≡ s.sessions)
        × (fails Query.spend_token ≡ false
            → (h' : Hasher) (fails' : Query → Bool) (later : ℕ) (new : String)
            → valid_password new ≡ true
            → fails' Query.select_token ≡ false
            → post_reset h' fails' later token new s' ≡ stopped AuthError.token_used)
  unfolding post_reset
  post_reset_once won = elim (Option-cases (find_reset token s.resets)) [
    | inl missing' ↦ absurd (ground arith)
    | inr (r, found) ↦ elim (Option-cases r.expires_at) [
      | inl garbled ↦ absurd (ground arith)
      | inr (end, until) ↦ elim (Option-cases (h.hash password)) [
        | inl broken ↦ absurd (ground arith)
        | inr (key, made) ↦
            let accounts : s'.accounts ≡ set_password key r.user_id s.accounts = ground arith in
            let (r', again, used) = used_after token s.resets {r = r} found in
            (
              r,
              end,
              found,
              ground arith,
              until,
              ground arith,
              λ other ne. rw accounts (find_account-set_password key r.user_id other s.accounts ne),
              ground arith,
              λ works h' fails' later new long reads.
                  let resets : s'.resets ≡ mark_used token s.resets = ground arith in
                  let spent : find_reset token s'.resets ≡ some r' = rw resets again in
                  ground (arith, spent, used, long, reads),
            )
      ]
    ]
  ]
