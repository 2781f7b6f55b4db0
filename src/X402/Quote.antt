-- ===== src/X402/Quote.antt =====
-- src/handlers/pay.rs: the checks of `x402_start` and the price in base units of a token. The libraries for
-- addresses, hashes and signatures are parameters, and so is the new UUID.
use Prim.Native.Nat.{min}
use ppv_stream_rust.Prelude.{
  ℕ, ◌+◌, ◌-◌, ◌*◌, ◌/◌, ◌%◌, ◌^◌, String, Bool, not, ◌&&◌, ◌||◌, Option, none, some, List, [], ◌∷◌,
  ◌==◌, nat_eq, or_else, is_some, if◌then◌else◌,
}
use ppv_stream_rust.Prelude.Int.{ℤ, pos, negsuc, leb_ℤ, is_zero}
use ppv_stream_rust.Prelude.Attempt.{Attempt, done, ◌>>=◌, ◌>>◌, or_stop, stop_if}
use ppv_stream_rust.Settings.{load_payment_settings}
use ppv_stream_rust.Tables.{find_second, Video, find_user, find_video}
use ppv_stream_rust.Wallet.{Session}
use ppv_stream_rust.X402.{remote_video_checkout_url, PayToken, Books, Query}

pub record StartPayReq : Type 0 where
  pub video_id : String
  pub chain_id : ℤ
  pub symbol : String
  pub token_address : Option String
  pub payer_address : String
  pub ref_code : Option String

-- The values that are ABI encoded. A 32-byte value is its hexadecimal text.
pub data AbiToken : Type 0 where
  fixed_bytes : String → AbiToken
  address uint : ℕ → AbiToken

-- What signing ends in: the key cannot be read, it does not sign, or a signature.
pub data Signing : Type 0 where
  bad_key sign_failed : Signing
  signed : String → Signing

-- The configuration and the libraries: `Address::from_str`, `keccak256` of a text, and the signature
-- of ABI encoded values under a private key. `admin_key` is X402_ADMIN_PRIVKEY, empty where unset.
pub record Signer : Type 0 where
  pub parse_address : String → Option ℕ
  pub keccak : String → String
  pub admin_key : String
  pub sign : String → List AbiToken → Signing
  pub creator_split_bp : ℕ
  pub deadline_secs : ℕ
  pub now : ℕ
  pub invoice_uid : String

pub data StartError : Type 0 where
  disabled not_logged_in invalid_params invalid_payer video_not_found : StartError
  remote_video : Option String → StartError
  no_wallet invalid_wallet token_not_supported zero_amount key_not_set key_refused : StartError
  not_signed : StartError

pub record StartPayResp : Type 0 where
  pub invoice_uid : String
  pub invoice_uid_bytes32 : String
  pub amount_wei : ℕ
  pub min_amount_wei : ℕ
  pub deadline : ℕ
  pub signature : String
  pub split_creator_bp : ℕ
  pub split_admin_bp : ℕ
  pub creator_wallet : String

pub data StartReply : Type 0 where
  refused : StartError → StartReply
  started : StartPayResp → StartReply

-- `saturating_mul` and `saturating_add` of u128
abbrev sat_u128 : ℕ → ℕ
sat_u128 n = min n (2 ^ 128 - 1)

-- `10u128.pow(decimals)`, which wraps in a release build
abbrev pub unit_of : ℕ → ℕ
unit_of decimals = 10 ^ decimals % 2 ^ 128

-- The price in base units of the token, rounded up.
unfoldable pub token_amount : ℤ → ℕ → ℕ
token_amount (negsuc n) decimals = 0
token_amount (pos n) decimals =
    if nat_eq n 0 then 0 else sat_u128 (sat_u128 (n * unit_of decimals) + 99) / 100

abbrev eq_ℤ : ℤ → ℤ → Bool
eq_ℤ a b = leb_ℤ a b && leb_ℤ b a

-- COALESCE(erc20_address, erc20)
abbrev erc20_of : PayToken → Option String
erc20_of t = elim t.erc20_address [ none ↦ t.erc20 | some a ↦ some a ]

-- The query on `pay_tokens`: the first active row of the chain, the symbol and the address.
unfoldable pub find_token : ℤ → String → Option String → List PayToken → Option PayToken
find_token chain symbol addr [] = none
find_token chain symbol addr (t ∷ ts) =
    if eq_ℤ t.chain_id chain
      && t.symbol == symbol
      && or_else (erc20_of t) "" == or_else addr ""
      && t.is_active
    then some t
    else find_token chain symbol addr ts

-- The answer where there is no such video here.
unfoldable pub missing_video : (Query → Bool) → String → Books → StartError
missing_video fails video_id s =
    elim (remote_video_checkout_url (fails Query.select_remote) video_id s) [
      | none ↦ video_not_found
      | some url ↦ remote_video url
    ]

-- The video with its owner's wallet: the query joins the two tables.
abbrev pub owned_video : (Query → Bool) → String → Books → Option (Video × Option String)
owned_video fails video_id s =
    if fails Query.select_video then none else elim (find_video video_id s.main.videos) [
      | none ↦ none
      | some v ↦
          if is_some (find_user v.owner_id s.main.users)
          then some (v, or_else (find_second v.owner_id s.wallets) none)
          else none
    ]

abbrev pub non_empty : Option String → Option String
non_empty none = none
non_empty (some t) = if t == "" then none else some t

-- What the handler has found out before it writes.
pub record Quote : Type 0 where
  pub buyer_id : String
  pub video : Video
  pub payer : ℕ
  pub creator_wallet : String
  pub creator : ℕ
  pub amount : ℕ

unfoldable pub quote :
    Signer → (Query → Bool) → Session → StartPayReq → Books → Attempt StartError Quote
quote env fails session body s = do
  stop_if
      (not
        (load_payment_settings (fails Query.select_settings) s.main.payment_settings).x402_enabled)
      disabled
  (uid, _) ← or_stop session not_logged_in
  stop_if (body.video_id == "" || is_zero body.chain_id || body.symbol == "") invalid_params
  payer ← or_stop (env.parse_address body.payer_address) invalid_payer
  (video, account) ←
      or_stop (owned_video fails body.video_id s) (missing_video fails body.video_id s)
  wallet ← or_stop (non_empty account) no_wallet
  creator ← or_stop (env.parse_address wallet) invalid_wallet
  stop_if (fails Query.select_token) token_not_supported
  token ←
      or_stop (find_token body.chain_id body.symbol body.token_address s.tokens) token_not_supported
  let amount = token_amount video.price_cents token.decimals
  stop_if (nat_eq amount 0) zero_amount
  done (record {
    buyer_id = uid;
    video = video;
    payer = payer;
    creator_wallet = wallet;
    creator = creator;
    amount = amount;
  })
