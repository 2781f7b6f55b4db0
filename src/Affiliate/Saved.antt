-- ===== src/Affiliate/Saved.antt =====
-- What saving the settings of an affiliate program does.
use ppv_stream_rust.Prelude.{
  String, ◌≡◌, ◌≢◌, refl, Bool, some, List, [], ◌∷◌, arith, eq_iff, str_refl, inl, inr,
  Option-cases,
}
use ppv_stream_rust.Prelude.Int.{pos, ◌≤ℤ◌}
use ppv_stream_rust.Prelude.Attempt.{done}
use ppv_stream_rust.Tables.{Store, Video, AffiliateSettings, find_settings, find_video}
use ppv_stream_rust.Wallet.{Session}
use ppv_stream_rust.Affiliate.{Query, upsert_settings, affiliate_settings_save}

find_settings-upsert :
    (a : AffiliateSettings) (as' : List AffiliateSettings)
    → find_settings a.video_id (upsert_settings a as') ≡ some a
unfolding find_settings upsert_settings
find_settings-upsert a [] = ground (arith, str_refl a.video_id)
find_settings-upsert a (b ∷ bs) = ground (arith, str_refl a.video_id, find_settings-upsert a bs)

find_settings-upsert_other :
    (a : AffiliateSettings) (id : String) (as' : List AffiliateSettings)
    → id ≢ a.video_id
    → find_settings id (upsert_settings a as') ≡ find_settings id as'
unfolding find_settings upsert_settings
find_settings-upsert_other a id [] ne = ground (arith, eq_iff a.video_id id)
find_settings-upsert_other a id (b ∷ bs) ne = ground (
  arith,
  eq_iff a.video_id id,
  eq_iff b.video_id id,
  eq_iff b.video_id a.video_id,
  find_settings-upsert_other a id bs ne,
)

module _ (fails : Query → Bool) (user : Session) (p : AffiliateSettings) (s s' : Store) where
  -- Whatever statements fail: settings that are answered as saved come from the logged in owner of the
  -- video and have a percentage from 0 to 90; they are the video's settings from then on, every other
  -- video has the settings it had, and no other table has changed.
  pub affiliate_settings_save_saves :
      affiliate_settings_save fails user p s ≡ done s'
      → (uid : String) × (admin : Bool) × (v : Video) × (user ≡ some (uid, admin))
        × (find_video p.video_id s.videos ≡ some v)
        × (v.owner_id ≡ uid)
        × (pos 0 ≤ℤ p.commission_pct)
        × (p.commission_pct ≤ℤ pos 90)
        × (find_settings p.video_id s'.affiliate_settings ≡ some p)
        × ((id : String)
            → id ≢ p.video_id
            → find_settings id s'.affiliate_settings ≡ find_settings id s.affiliate_settings)
        × (s' ≡ record s { affiliate_settings = s'.affiliate_settings })
  unfolding affiliate_settings_save
  affiliate_settings_save_saves h = elim (Option-cases user) [
    | inl out ↦ absurd (ground arith)
    | inr ((uid, admin), logged) ↦ elim (Option-cases (find_video p.video_id s.videos)) [
      | inl missing' ↦ absurd (ground arith)
      | inr (v, listed) ↦
          let made : s' ≡ record s { affiliate_settings = upsert_settings p s.affiliate_settings } =
            ground arith in
          (
            uid,
            admin,
            v,
            logged,
            listed,
            ground (arith, eq_iff v.owner_id uid),
            ground arith,
            ground arith,
            rw made (find_settings-upsert p s.affiliate_settings),
            λ id ne. rw made (find_settings-upsert_other p id s.affiliate_settings ne),
            rw made refl,
          )
    ]
  ]
