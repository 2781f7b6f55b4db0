-- ===== src/Examples/Offers.antt =====
-- The theorems on payment options and on affiliate programs, at the example tables.
use ppv_stream_rust.Prelude.{
  ℕ, ◌*◌, ◌/◌, ◌⊎◌, String, ◌≡◌, ◌≢◌, refl, Bool, true, false, none, some, List, [], ◌∷◌, arith,
}
use ppv_stream_rust.Prelude.Int.{ℤ, pos, ◌≤ℤ◌, ◌-ℤ◌}
use ppv_stream_rust.Prelude.Word.{wrap64}
use ppv_stream_rust.Prelude.Attempt.{done}
use ppv_stream_rust.Prelude.Int.{quot, ◌*ℤ◌}
use ppv_stream_rust.Settings.{load_payment_settings}
use ppv_stream_rust.Tables.{
  Store, Video, AffiliateSettings, find_user, find_video, find_settings, find_username, balance_of,
  has_pair, is_blocked,
}
use ppv_stream_rust.Transaction.{healthy}
use ppv_stream_rust.Wallet.{access_granted, Session}
use ppv_stream_rust.Wallet.Payment.{creator_cut_of, wallet_pay_video}
use ppv_stream_rust.Commission.{process_affiliate_commission}
use ppv_stream_rust.X402.{Books, PayToken}
use ppv_stream_rust.Options.{
  AllOptions, all_options, offer, token_list, active_tokens, providers_of,
}
use ppv_stream_rust.Options.Affordable.{healthy_query, all_options-wallet_pay_video}
use ppv_stream_rust.Affiliate.{
  Query, ReferralLink, affiliate_settings_save, upsert_settings, affiliate_link,
}
use ppv_stream_rust.Affiliate.Saved.{affiliate_settings_save_saves}
use ppv_stream_rust.Affiliate.Link.{IsUnpaid, affiliate_link_pays_nobody}
use ppv_stream_rust.Examples.{shop, shop-IsSound, shop-HasRoom}
use ppv_stream_rust.Wallet.Settle.Pays.{Paid}
use ppv_stream_rust.Commission.Atomic.{Commissioned}

abbrev books : Books
books = record {
  invoices = [];
  next_invoice = 1;
  tokens = [];
  wallets = [];
  remote = [];
  main = shop;
}

abbrev as_found : List PayToken → List PayToken
as_found ts = ts

abbrev told : AllOptions
told = record {
  price_cents = pos 5000;
  is_owner = false;
  already_purchased = false;
  wallet_available = true;
  balance_cents = some (pos 20000);
  can_afford = some true;
  x402_available = false;
  tokens = [];
  fiat_available = true;
  fiat_providers = "paypal" ∷ "stripe" ∷ "midtrans" ∷ "xendit" ∷ [];
}

alice_told : all_options healthy_query as_found (some ("a", false)) "v" books ≡ done told
unfolding all_options offer token_list active_tokens providers_of load_payment_settings find_video
    find_user balance_of has_pair
alice_told = refl

all_options-wallet_pay_video_example :
    let (r, s') = wallet_pay_video healthy healthy 9000 (some ("a", false)) "v" none shop in
    (price : ℕ) × (t : Store) × (pos 5000 ≡ pos price)
    × Paid "a" "c" (pos price) (pos (price * 9000 / 10000)) shop t
    × (has_pair "a" "v" t.purchases ≡ true)
    × (r
        ≡ access_granted
            (balance_of shop.users "a" -ℤ pos price)
            (pos (price * 9000 / 10000))
            (pos price))
    × ((s' ≡ t)
        ⊎ ((name : String) × (cents : ℤ) × Commissioned "v" "a" "c"
              (pos price)
              name
              "wallet"
              none
              t
              cents
              s'))
unfolding find_user find_video is_blocked creator_cut_of wrap64 quot ◌*ℤ◌
all_options-wallet_pay_video_example =
    all_options-wallet_pay_video as_found "a" "v" false books told healthy 9000 none _ (omega arith)
      shop-IsSound shop-HasRoom alice_told refl refl refl refl refl (omega arith) (omega arith) refl

abbrev carol : Session
carol = some ("c", false)

abbrev works : Query → Bool
works _ = false

abbrev half : AffiliateSettings
half = record { video_id = "w"; commission_pct = pos 50; is_enabled = true }

abbrev saved : Store
saved = record shop {
  affiliate_settings =
      record { video_id = "v"; commission_pct = pos 10; is_enabled = true } ∷ half ∷ [];
}

carol_saves : affiliate_settings_save works carol half shop ≡ done saved
unfolding affiliate_settings_save upsert_settings find_video find_user
carol_saves = refl

affiliate_settings_save_saves_example :
    (uid : String) × (admin : Bool) × (v : Video) × (carol ≡ some (uid, admin))
    × (find_video "w" shop.videos ≡ some v)
    × (v.owner_id ≡ uid)
    × (pos 0 ≤ℤ pos 50)
    × (pos 50 ≤ℤ pos 90)
    × (find_settings "w" saved.affiliate_settings ≡ some half)
    × ((id : String)
        → id ≢ "w"
        → find_settings id saved.affiliate_settings ≡ find_settings id shop.affiliate_settings)
    × (saved ≡ record shop { affiliate_settings = saved.affiliate_settings })
affiliate_settings_save_saves_example =
    affiliate_settings_save_saves works carol half shop saved carol_saves

-- dave's link for carol's video
abbrev link_of_dave : ReferralLink
link_of_dave = record {
  ref = "false";
  link = "/public/watch.html?video_id=v&ref=false";
  is_enabled = true;
}

dave_asks : affiliate_link works (some ("d", false)) "v" shop ≡ done link_of_dave
unfolding affiliate_link find_settings
dave_asks = refl

affiliate_link_pays_nobody_example :
    let (r, s') =
      process_affiliate_commission healthy "v" "a" "c" (pos 5000) "false" "wallet" none shop in
    IsUnpaid r × (s' ≡ shop)
unfolding find_username
affiliate_link_pays_nobody_example =
    affiliate_link_pays_nobody works (some ("d", false)) "v" shop link_of_dave dave_asks refl refl
      healthy "a" "c" (pos 5000) "wallet" none
