-- ===== src/Access/Kept.antt =====
-- Access through the allowlist, where later statements leave the list and the names alone.
use ppv_stream_rust.Prelude.{String, ◌≡◌, refl, true, Option, none, some, ◌∙◌}
use ppv_stream_rust.Tables.{Store, User, find_user, has_pair}
use ppv_stream_rust.Access.{user_has_view_access}
use ppv_stream_rust.Access.Cases.{answered, IsEntitled, entitled}

abbrev pub name_in : Option User → Option String
name_in none = none
name_in (some u) = some u.username

name_in-inv :
    (o : Option User) {name : String}
    → name_in o ≡ some name
    → (u : User) × (o ≡ some u) × (u.username ≡ name)
name_in-inv none h = cc
name_in-inv (some u) h = (u, refl, cc)

-- A name that was on the list of the video still is, and is still the user's.
pub kept_rights :
    (video user : String) (s s' : Store) (u : User)
    → ((j : String) → name_in (find_user j s'.users) ≡ name_in (find_user j s.users))
    → s'.allowlist ≡ s.allowlist
    → find_user user s.users ≡ some u
    → has_pair video u.username s.allowlist ≡ true
    → user_has_view_access answered video user s' ≡ true
kept_rights video user s s' u names same_list known listed =
    let named : name_in (find_user user s'.users) ≡ some u.username = names user ∙ rw known refl in
    let (u', found, same) = name_in-inv (find_user user s'.users) named in
    entitled video user s' (IsEntitled.allowed u' found (rw (same, same_list) listed))
