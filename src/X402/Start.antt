-- ===== src/X402/Start.antt =====
-- src/handlers/pay.rs: `x402_start`, and the message that contracts/contracts/X402Splitter.sol verifies.
-- The libraries for addresses, hashes and signatures are parameters, and so is the new UUID.
pub mod Amount
pub mod Stored
pub mod Message
use Prim.Native.Nat.{min}
use ppv_stream_rust.Prelude.{
  ℕ, ◌+◌, ◌-◌, ◌*◌, ◌/◌, ◌%◌, ◌^◌, String, Bool, true, false, not, ◌&&◌, ◌||◌, Option, none, some,
  List, [], ◌∷◌, ◌==◌, nat_eq, or_else, is_some, if◌then◌else◌, leb,
}
use ppv_stream_rust.Prelude.Int.{ℤ, pos, negsuc, leb_ℤ, is_zero}
use ppv_stream_rust.Prelude.Attempt.{Attempt, done, stopped, ◌>>=◌, ◌>>◌, or_stop, stop_if}
use ppv_stream_rust.Settings.{load_payment_settings}
use ppv_stream_rust.Tables.{find_second, Store, Video, find_user, find_video}
use ppv_stream_rust.Wallet.{Session}
use ppv_stream_rust.X402.{
  remote_video_checkout_url, InvoiceStatus, Invoice, PayToken, Books, Query, find_invoice,
  set_affiliate_ref,
}
use ppv_stream_rust.X402.Quote.{
  StartPayReq, AbiToken, Signing, Signer, StartError, StartPayResp, StartReply, unit_of,
  token_amount, find_token, missing_video, Quote, quote, non_empty, fixed_bytes, address, uint,
  bad_key, sign_failed, signed, disabled, not_logged_in, invalid_params, invalid_payer,
  video_not_found, remote_video, no_wallet, invalid_wallet, token_not_supported, zero_amount,
  key_not_set, key_refused, not_signed, refused, started,
}

abbrev pub new_invoice : Signer → StartPayReq → Quote → ℕ → Invoice
new_invoice env body q id = record {
  id = id;
  invoice_uid = env.invoice_uid;
  invoice_uid_hash = some (env.keccak env.invoice_uid);
  user_id = q.buyer_id;
  video_id = body.video_id;
  creator_id = q.video.owner_id;
  chain_id = body.chain_id;
  token_symbol = body.symbol;
  token_address = body.token_address;
  price_cents = q.video.price_cents;
  required_amount_wei = some q.amount;
  paid_amount_wei = some 0;
  status = InvoiceStatus.pending;
  tx_hash = none;
  payer_address = none;
  affiliate_ref = none;
}

-- INSERT INTO x402_invoices, whose result is not looked at: `invoice_uid` is unique, and the buyer is
-- a reference to `users`; video and creator have just been read.
unfoldable pub insert_invoice : (Query → Bool) → Signer → StartPayReq → Quote → Books → Books
insert_invoice fails env body q s =
    if fails Query.insert_invoice
      || is_some (find_invoice env.invoice_uid s.invoices)
      || not (is_some (find_user q.buyer_id s.main.users))
    then s
    else record s {
      invoices = new_invoice env body q s.next_invoice ∷ s.invoices;
      next_invoice = s.next_invoice + 1;
    }

-- The name of the affiliate, unless it is missing or empty.
unfoldable pub store_ref : (Query → Bool) → Signer → StartPayReq → Books → Books
store_ref fails env body s = elim (non_empty body.ref_code) [
  | none ↦ s
  | some name ↦
      if fails Query.set_ref
      then s
      else record s { invoices = set_affiliate_ref name env.invoice_uid s.invoices }
]

abbrev pub deadline_of : Signer → ℕ
deadline_of env = (env.now + env.deadline_secs) % 2 ^ 64

-- `Address::from_str` of the token's address, and zero for the chain's own asset
abbrev pub token_of : Signer → StartPayReq → ℕ
token_of env body = elim body.token_address [ none ↦ 0 | some t ↦ or_else (env.parse_address t) 0 ]

-- The values that are signed, in the order of `abi_encode`.
unfoldable pub signed_message : Signer → StartPayReq → Quote → List AbiToken
signed_message env body q =
    fixed_bytes (env.keccak env.invoice_uid)
    ∷ address (token_of env body)
    ∷ uint q.amount
    ∷ address q.creator
    ∷ uint env.creator_split_bp
    ∷ fixed_bytes (env.keccak body.video_id)
    ∷ address q.payer
    ∷ uint (deadline_of env)
    ∷ []

-- `_verify` of the contract: the values whose hash the signature must be of, for a contract at
-- address `this` on chain `chain`.
unfoldable pub verified_message : Signer → StartPayReq → Quote → ℕ → ℕ → List AbiToken
verified_message env body q this chain =
    fixed_bytes (env.keccak env.invoice_uid)
    ∷ address (token_of env body)
    ∷ uint q.amount
    ∷ address q.creator
    ∷ uint env.creator_split_bp
    ∷ fixed_bytes (env.keccak body.video_id)
    ∷ address q.payer
    ∷ uint (deadline_of env)
    ∷ address this
    ∷ uint chain
    ∷ []

-- The contract that the payment is made at: its address and chain, the time of the block, the account
-- `admin`, and `ECDSA.recover` from the hash of ABI encoded values and a signature.
pub record Contract : Type 0 where
  pub this : ℕ
  pub chain : ℕ
  pub time : ℕ
  pub admin : ℕ
  pub recover : List AbiToken → String → ℕ

-- `_verify`: the deadline has not passed, and the signature is the administrator's.
unfoldable pub contract_verifies : Contract → Signer → StartPayReq → Quote → String → Bool
contract_verifies k env body q signature =
    leb k.time (deadline_of env)
    && nat_eq (k.recover (verified_message env body q k.this k.chain) signature) k.admin

-- `10000u16 - creator_split_bp`
abbrev admin_bp : Signer → ℕ
admin_bp env = (10000 + 2 ^ 16 - env.creator_split_bp) % 2 ^ 16

abbrev response : Signer → Quote → String → StartPayResp
response env q signature = record {
  invoice_uid = env.invoice_uid;
  invoice_uid_bytes32 = env.keccak env.invoice_uid;
  amount_wei = q.amount;
  min_amount_wei = q.amount;
  deadline = deadline_of env;
  signature = signature;
  split_creator_bp = env.creator_split_bp;
  split_admin_bp = admin_bp env;
  creator_wallet = q.creator_wallet;
}

-- The signature, once the invoice is stored.
unfoldable pub sign_quote : Signer → StartPayReq → Quote → StartReply
sign_quote env body q =
    if env.admin_key == ""
    then refused key_not_set
    else elim (env.sign env.admin_key (signed_message env body q)) [
      | bad_key ↦ refused key_refused
      | sign_failed ↦ refused not_signed
      | signed t ↦ started (response env q t)
    ]

unfoldable pub x402_start :
    Signer → (Query → Bool) → Session → StartPayReq → Books → StartReply × Books
x402_start env fails session body s = elim (quote env fails session body s) [
  | stopped e ↦ (refused e, s)
  | done q ↦ (sign_quote env body q, store_ref fails env body (insert_invoice fails env body q s))
]
