-- ===== src/Options.antt =====
-- src/handlers/pay.rs: `pay_options` and `all_options`, the ways in which a video can be paid for. The
-- order of the tokens, by chain and symbol, is a parameter, as it is the database's order of texts.
pub mod Affordable
use ppv_stream_rust.Prelude.{
  String, Bool, true, false, not, ◌&&◌, Option, none, some, List, [], ◌∷◌, ◌++◌, ◌==◌, is_some,
  or_else, if◌then◌else◌,
}
use ppv_stream_rust.Prelude.Int.{ℤ, pos, leb_ℤ}
use ppv_stream_rust.Prelude.Attempt.{Attempt, done, stopped, ◌>>=◌, ◌>>◌, or_stop, stop_if}
use ppv_stream_rust.Settings.{PaymentSettings, load_payment_settings}
use ppv_stream_rust.Tables.{Store, Video, find_user, find_video, find_second, balance_of, has_pair}
use ppv_stream_rust.Wallet.{Session}
use ppv_stream_rust.X402.{PayToken, Books, remote_video_checkout_url}

-- The statements of the two handlers.
pub data Query : Type 0 where
  select_settings select_video select_remote select_balance count_purchases select_tokens : Query

pub data OptionsError : Type 0 where
  video_required db_error video_not_found : OptionsError
  remote_video : Option String → OptionsError

-- SELECT ... FROM pay_tokens WHERE is_active = TRUE
unfoldable pub active_tokens : List PayToken → List PayToken
active_tokens [] = []
active_tokens (t ∷ ts) = let rest = active_tokens ts in if t.is_active then t ∷ rest else rest

unfoldable pub token_list : (Query → Bool) → (List PayToken → List PayToken) → Books → List PayToken
token_list fails sorted s =
    if fails Query.select_tokens then [] else sorted (active_tokens s.tokens)

-- The answer where there is no such video here.
unfoldable pub no_video : (Query → Bool) → String → Books → OptionsError
no_video fails video_id s =
    elim (remote_video_checkout_url (fails Query.select_remote) video_id s) [
      | none ↦ video_not_found
      | some url ↦ remote_video url
    ]

-- The answer of `pay_options`.
pub record PayOptions : Type 0 where
  pub price_cents : ℤ
  pub creator_id : String
  pub creator_wallet : Option String
  pub tokens : List PayToken

unfoldable pub pay_options :
    (Query → Bool)
    → (List PayToken → List PayToken)
    → String
    → Books
    → Attempt OptionsError PayOptions
pay_options fails sorted video_id s = do
  stop_if (video_id == "") video_required
  stop_if (fails Query.select_video) db_error
  video ← or_stop (find_video video_id s.main.videos) (no_video fails video_id s)
  stop_if (not (is_some (find_user video.owner_id s.main.users))) (no_video fails video_id s)
  done (record {
    price_cents = video.price_cents;
    creator_id = video.owner_id;
    creator_wallet = or_else (find_second video.owner_id s.wallets) none;
    tokens = token_list fails sorted s;
  })

-- The answer of `all_options`; `balance_cents` and `can_afford` are missing without a session.
pub record AllOptions : Type 0 where
  pub price_cents : ℤ
  pub is_owner : Bool
  pub already_purchased : Bool
  pub wallet_available : Bool
  pub balance_cents : Option ℤ
  pub can_afford : Option Bool
  pub x402_available : Bool
  pub tokens : List PayToken
  pub fiat_available : Bool
  pub fiat_providers : List String

abbrev when : Bool → String → List String
when b k = if b then k ∷ [] else []

-- The enabled providers, in the order in which they are pushed.
unfoldable pub providers_of : PaymentSettings → List String
providers_of p =
    when p.paypal_enabled "paypal"
    ++ (when p.stripe_enabled "stripe"
        ++ (when p.midtrans_enabled "midtrans" ++ when p.xendit_enabled "xendit"))

abbrev is_empty {ℓ} : {A : Type ℓ} → List A → Bool
is_empty [] = true
is_empty (x ∷ xs) = false

-- The balance of the user, 0 where it is not found.
abbrev balance_for : (Query → Bool) → String → Books → ℤ
balance_for fails uid s = if fails Query.select_balance then pos 0 else balance_of s.main.users uid

-- What `all_options` answers for a video that is here.
unfoldable pub offer :
    (Query → Bool) → (List PayToken → List PayToken) → Session → Video → String → Books → AllOptions
offer fails sorted user video video_id s =
    let p = load_payment_settings (fails Query.select_settings) s.main.payment_settings in
    let tokens = token_list fails sorted s in
    let providers = providers_of p in
    let balance : Option ℤ = elim user [
      | none ↦ none
      | some (uid, _) ↦ some (balance_for fails uid s)
    ] in
    let owns : Bool = elim user [ none ↦ false | some (uid, _) ↦ uid == video.owner_id ] in
    record {
      price_cents = video.price_cents;
      is_owner = owns;
      already_purchased = elim user [
        | none ↦ false
        | some (uid, _) ↦
            not (fails Query.count_purchases) && has_pair uid video_id s.main.purchases
      ];
      wallet_available = p.wallet_payment_enabled;
      balance_cents = balance;
      can_afford = elim balance [
        | none ↦ none
        | some b ↦ some (p.wallet_payment_enabled && leb_ℤ video.price_cents b && not owns)
      ];
      x402_available = p.x402_enabled && not (is_empty tokens);
      tokens = tokens;
      fiat_available = not (is_empty providers);
      fiat_providers = providers;
    }

unfoldable pub all_options :
    (Query → Bool)
    → (List PayToken → List PayToken)
    → Session
    → String
    → Books
    → Attempt OptionsError AllOptions
all_options fails sorted user video_id s = do
  stop_if (video_id == "") video_required
  stop_if (fails Query.select_video) db_error
  video ← or_stop (find_video video_id s.main.videos) (no_video fails video_id s)
  done (offer fails sorted user video video_id s)
