-- ===== src/Tables/Users.antt =====
-- Looking up a user and its balance after an UPDATE of a balance.
use ppv_stream_rust.Prelude.{
  String, ◌≡◌, ◌≢◌, true, Option, none, some, List, [], ◌∷◌, ◌==◌, eq_iff, arith, if◌then◌else◌,
  is_some,
}
use ppv_stream_rust.Prelude.Int.{ℤ}
use ppv_stream_rust.Tables.{
  User, Video, find_video, find_user, find_username, balance_of, set_balance,
}

pub find_user-id : (id : String) (us : List User) {u : User} → find_user id us ≡ some u → u.id ≡ id
unfolding find_user
find_user-id id [] h = cc
find_user-id id (x ∷ us) {u} h = ground (arith, eq_iff x.id id, find_user-id id us {u = u})

-- A row found by its name is found by its id too.
pub find_user_of_find_username :
    (name : String) (us : List User) {u : User}
    → find_username name us ≡ some u
    → is_some (find_user u.id us) ≡ true
unfolding find_user find_username
find_user_of_find_username name [] h = cc
find_user_of_find_username name (x ∷ us) {u} h =
    ground
      (arith, eq_iff x.id u.id, eq_iff x.username name, find_user_of_find_username name us {u = u})

abbrev pub with_balance : ℤ → Option User → Option User
with_balance v none = none
with_balance v (some u) = some (record u { balance_cents = v })

pub find_user-set_balance :
    (j id : String) (v : ℤ) (us : List User)
    → find_user j (set_balance id v us)
      ≡ (if id == j then with_balance v (find_user j us) else find_user j us)
unfolding find_user set_balance
find_user-set_balance j id v [] = ground arith
find_user-set_balance j id v (x ∷ us) =
    ground (arith, eq_iff x.id id, eq_iff x.id j, eq_iff id j, find_user-set_balance j id v us)

pub balance_of-set_balance_self :
    (id : String) (v : ℤ) (us : List User)
    → is_some (find_user id us) ≡ true
    → balance_of (set_balance id v us) id ≡ v
unfolding balance_of
balance_of-set_balance_self id v us h =
    ground (arith, find_user-set_balance id id v us, eq_iff id id)

pub balance_of-set_balance_ne :
    (id j : String) (v : ℤ) (us : List User)
    → id ≢ j
    → balance_of (set_balance id v us) j ≡ balance_of us j
unfolding balance_of
balance_of-set_balance_ne id j v us h = ground (arith, find_user-set_balance j id v us, eq_iff id j)

pub is_some-find_user-set_balance :
    (id j : String) (v : ℤ) (us : List User)
    → is_some (find_user j (set_balance id v us)) ≡ is_some (find_user j us)
is_some-find_user-set_balance id j v us = ground (arith, find_user-set_balance j id v us)

-- What a lookup sees of an UPDATE of a known user's balance.
pub balance_of-set_balance :
    (id j : String) (v : ℤ) (us : List User)
    → is_some (find_user id us) ≡ true
    → balance_of (set_balance id v us) j ≡ (if id == j then v else balance_of us j)
unfolding balance_of
balance_of-set_balance id j v us h = ground (arith, find_user-set_balance j id v us, eq_iff id j)

pub find_video-id :
    (id : String) (vs : List Video) {v : Video} → find_video id vs ≡ some v → v.id ≡ id
unfolding find_video
find_video-id id [] h = cc
find_video-id id (x ∷ vs) {v} h = ground (arith, eq_iff x.id id, find_video-id id vs {v = v})
