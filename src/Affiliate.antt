-- ===== src/Affiliate.antt =====
-- src/handlers/affiliate.rs: the settings of a video's affiliate program and the referral link.
pub mod Saved
pub mod Link
use Prim.Native.String
use ppv_stream_rust.Prelude.{
  String, Bool, true, false, not, ◌&&◌, ◌||◌, Option, none, some, List, [], ◌∷◌, ◌==◌, is_some,
  if◌then◌else◌,
}
use ppv_stream_rust.Prelude.Int.{ℤ, pos, leb_ℤ, ltb_ℤ, ◌+ℤ◌}
use ppv_stream_rust.Prelude.Attempt.{Attempt, done, stopped, ◌>>=◌, ◌>>◌, or_stop, stop_if}
use ppv_stream_rust.Tables.{Store, AffiliateSettings, Commission, find_user, find_settings}
use ppv_stream_rust.Access.{is_owner}
use ppv_stream_rust.Wallet.{Session}

-- The statements of the handlers.
pub data Query : Type 0 where
  count_owned select_settings upsert : Query

pub data AffiliateError : Type 0 where
  not_logged_in video_required invalid_pct not_your_video db_error : AffiliateError

-- SELECT COUNT(*) FROM videos WHERE id = $1 AND owner_id = $2, with 0 where it fails
abbrev owns : (Query → Bool) → String → String → Store → Bool
owns fails video_id uid s = not (fails Query.count_owned) && is_owner video_id uid s

-- What the forms show: the percentage, and whether the program is switched on.
pub record Program : Type 0 where
  pub commission_pct : ℤ
  pub is_enabled : Bool

abbrev program_of : Option AffiliateSettings → Program
program_of none = record { commission_pct = pos 0; is_enabled = false }
program_of (some a) = record { commission_pct = a.commission_pct; is_enabled = a.is_enabled }

unfoldable pub affiliate_settings_get :
    (Query → Bool) → Session → String → Store → Attempt AffiliateError Program
affiliate_settings_get fails user video_id s = do
  (uid, _) ← or_stop user not_logged_in
  stop_if (video_id == "") video_required
  stop_if (not (owns fails video_id uid s)) not_your_video
  stop_if (fails Query.select_settings) db_error
  done (program_of (find_settings video_id s.affiliate_settings))

-- `!(0..=90).contains(&pct)`
abbrev pub out_of_range : ℤ → Bool
out_of_range pct = ltb_ℤ pct (pos 0) || ltb_ℤ (pos 90) pct

-- INSERT INTO affiliate_settings ... ON CONFLICT (video_id) DO UPDATE
unfoldable pub upsert_settings : AffiliateSettings → List AffiliateSettings → List AffiliateSettings
upsert_settings a [] = a ∷ []
upsert_settings a (b ∷ bs) = if b.video_id == a.video_id then a ∷ bs else b ∷ upsert_settings a bs

-- `affiliate_settings_save`, whose row refers to its owner.
unfoldable pub affiliate_settings_save :
    (Query → Bool) → Session → AffiliateSettings → Store → Attempt AffiliateError Store
affiliate_settings_save fails user p s = do
  (uid, _) ← or_stop user not_logged_in
  stop_if (p.video_id == "") video_required
  stop_if (out_of_range p.commission_pct) invalid_pct
  stop_if (not (owns fails p.video_id uid s)) not_your_video
  stop_if (fails Query.upsert || not (is_some (find_user uid s.users))) db_error
  done (record s { affiliate_settings = upsert_settings p s.affiliate_settings })

-- A referral link: the part after `ref=`, the whole link, and whether the program is switched on.
pub record ReferralLink : Type 0 where
  pub ref : String
  pub link : String
  pub is_enabled : Bool

-- A bool in `format!`
abbrev pub show_bool : Bool → String
show_bool b = if b then "true" else "false"

-- `affiliate_link`: what the code calls the username is the second component of `current_user_id`,
-- whether the user is an administrator.
unfoldable pub affiliate_link :
    (Query → Bool) → Session → String → Store → Attempt AffiliateError ReferralLink
affiliate_link fails user video_id s = do
  (_, username) ← or_stop user not_logged_in
  stop_if (video_id == "") video_required
  let found =
      if fails Query.select_settings then none else find_settings video_id s.affiliate_settings
  let ref = show_bool username
  done (record {
    ref = ref;
    link =
        String.◌++◌ "/public/watch.html?video_id=" (String.◌++◌ video_id (String.◌++◌ "&ref=" ref));
    is_enabled = (program_of found).is_enabled;
  })

-- The answer of `affiliate_program_info`
pub record ProgramInfo : Type 0 where
  pub has_affiliate : Bool
  pub commission_pct : ℤ

unfoldable pub affiliate_program_info :
    (Query → Bool) → String → Store → Attempt AffiliateError ProgramInfo
affiliate_program_info fails video_id s = do
  stop_if (video_id == "") video_required
  stop_if (fails Query.select_settings) db_error
  let p = program_of (find_settings video_id s.affiliate_settings)
  done (record {
    has_affiliate = p.is_enabled && ltb_ℤ (pos 0) p.commission_pct;
    commission_pct = p.commission_pct;
  })
