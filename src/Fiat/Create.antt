-- ===== src/Fiat/Create.antt =====
-- src/handlers/payment_plugins.rs: the creation of invoices. The new UUID and the answers of the
-- providers' servers are parameters.
pub mod Rows
pub mod Outcome
use ppv_stream_rust.Prelude.{
  ℕ, String, Bool, true, false, not, ◌&&◌, ◌||◌, Option, none, some, List, [], ◌∷◌, ◌==◌, or_else,
  is_some, if◌then◌else◌,
}
use ppv_stream_rust.Prelude.Int.{ℤ, pos, ltb_ℤ}
use ppv_stream_rust.Prelude.Attempt.{Attempt, done, stopped, ◌>>=◌, ◌>>◌, or_stop, stop_if}
use ppv_stream_rust.Tables.{find_second, Store, Video, find_user, find_video}
use ppv_stream_rust.Wallet.{Session}
use ppv_stream_rust.Fiat.Onchain.{Onchain, create_x402}
use ppv_stream_rust.Fiat.{
  CreateInvoiceRequest, ProviderInvoice, FiatStatus, FiatInvoice, Desk, Query, find_invoice,
  update_invoice, delete_invoices, with_invoices,
}
use ppv_stream_rust.Fiat.Registry.{Registry, get_plugin}

-- The fields of the request that are used.
pub record CreateInvoicePayload : Type 0 where
  pub video_id : String
  pub currency : String
  pub buyer_email : Option String
  pub affiliate_ref : Option String
  pub metadata : String → Option String

pub data CreateError : Type 0 where
  no_default provider_not_found not_logged_in video_not_found own_video invalid_price : CreateError
  db_error : Query → CreateError
  provider_failed : CreateError

pub data CreateReply : Type 0 where
  failed : CreateError → CreateReply
  created : String → ProviderInvoice → CreateReply

-- The `create_invoice` of PayPal, Stripe, Midtrans and Xendit by their keys, which ask their servers and
-- write no table; the configuration of the x402 plugin; and the UUID of the request.
pub record Providers : Type 0 where
  pub create_invoice : String → CreateInvoiceRequest → Option ProviderInvoice
  pub onchain : Onchain
  pub invoice_uid : String

-- What is known when the invoice is inserted.
pub record Sale : Type 0 where
  pub plugin : String
  pub buyer_id : String
  pub video : Video
  pub title : String
  pub email : Option String

unfoldable pub sale :
    (Query → Bool)
    → Registry
    → String
    → Session
    → CreateInvoicePayload
    → Desk
    → Attempt CreateError Sale
sale fails registry provider session body s = do
  plugin ← or_stop (get_plugin registry provider) provider_not_found
  (uid, _) ← or_stop session not_logged_in
  stop_if (fails Query.select_video) (db_error Query.select_video)
  video ← or_stop (find_video body.video_id s.main.videos) video_not_found
  stop_if (video.owner_id == uid) own_video
  stop_if (ltb_ℤ video.price_cents (pos 0)) invalid_price
  done (record {
    plugin = plugin;
    buyer_id = uid;
    video = video;
    title = or_else (find_second body.video_id s.titles) "";
    email = if fails Query.select_email then none else or_else (find_second uid s.emails) none;
  })

abbrev pub new_invoice : String → String → CreateInvoicePayload → Sale → FiatInvoice
new_invoice uid provider body sold = record {
  invoice_uid = uid;
  provider = provider;
  provider_ref = none;
  payment_url = none;
  user_id = sold.buyer_id;
  video_id = body.video_id;
  creator_id = sold.video.owner_id;
  amount = sold.video.price_cents;
  currency = body.currency;
  buyer_email = or_else sold.email "";
  status = FiatStatus.pending;
  has_paid_at = false;
  disburse_ref = none;
  affiliate_ref = none;
}

-- INSERT INTO fiat_invoices: `invoice_uid` is unique, buyer and creator are references to `users`.
unfoldable pub insert_invoice : (Query → Bool) → FiatInvoice → Desk → Option Desk
insert_invoice fails i s =
    if fails Query.insert_invoice
      || is_some (find_invoice i.invoice_uid s.invoices)
      || not (
          is_some (find_user i.user_id s.main.users)
          && is_some (find_user i.creator_id s.main.users))
    then none
    else some (with_invoices (i ∷ s.invoices) s)

abbrev non_empty : Option String → Option String
non_empty none = none
non_empty (some t) = if t == "" then none else some t

abbrev referred : String → FiatInvoice → FiatInvoice
referred name i = record i { affiliate_ref = some name }

unfoldable pub store_ref : (Query → Bool) → String → Option String → Desk → Desk
store_ref fails uid ref s = elim (non_empty ref) [
  | none ↦ s
  | some name ↦
      if fails Query.set_ref
      then s
      else with_invoices (update_invoice (referred name) uid s.invoices) s
]

-- `order_id`, else `xendit_invoice_id`, else `session_id`, else the invoice's own identifier
abbrev pub provider_ref_of : String → ProviderInvoice → String
provider_ref_of uid v = or_else v.order_id (or_else v.xendit_invoice_id (or_else v.session_id uid))

abbrev provided : String → ProviderInvoice → FiatInvoice → FiatInvoice
provided uid v i = record i {
  provider_ref = some (provider_ref_of uid v);
  payment_url = v.payment_url;
}

-- UPDATE fiat_invoices SET provider_ref = $1, payment_url = $2
unfoldable pub store_provider : (Query → Bool) → String → ProviderInvoice → Desk → Desk
store_provider fails uid v s =
    if fails Query.store_provider
    then s
    else with_invoices (update_invoice (provided uid v) uid s.invoices) s

unfoldable pub delete_invoice : (Query → Bool) → String → Desk → Desk
delete_invoice fails uid s =
    if fails Query.delete_invoice then s else with_invoices (delete_invoices uid s.invoices) s

abbrev request_of : String → CreateInvoicePayload → Sale → CreateInvoiceRequest
request_of uid body sold = record {
  user_id = sold.buyer_id;
  video_id = body.video_id;
  amount_cents = sold.video.price_cents;
  currency = body.currency;
  buyer_email = elim sold.email [ none ↦ body.buyer_email | some e ↦ some e ];
  invoice_uid = uid;
  video_title = sold.title;
  metadata = λ key.
      if key == "invoice_uid"
      then some uid
      else if key == "video_title"
      then some sold.title
      else body.metadata key;
}

-- `plugin.create_invoice`
unfoldable pub call_plugin :
    Providers
    → (Query → Bool)
    → String
    → CreateInvoiceRequest
    → Desk
    → Option ProviderInvoice × Desk
call_plugin p fails key request s =
    if key == "x402"
    then create_x402 p.onchain fails request s
    else (p.create_invoice key request, s)

-- From the plugin's call on.
unfoldable pub ask_plugin :
    Providers → (Query → Bool) → String → CreateInvoiceRequest → Desk → CreateReply × Desk
ask_plugin p fails key request s =
    let called = call_plugin p fails key request s in
    elim called.0 [
      | none ↦ (failed provider_failed, delete_invoice fails p.invoice_uid called.1)
      | some v ↦ (created p.invoice_uid v, store_provider fails p.invoice_uid v called.1)
    ]

unfoldable pub create_invoice_with_provider :
    Providers
    → (Query → Bool)
    → Registry
    → String
    → Session
    → CreateInvoicePayload
    → Desk
    → CreateReply × Desk
create_invoice_with_provider p fails registry provider session body s =
    elim (sale fails registry provider session body s) [
      | stopped e ↦ (failed e, s)
      | done sold ↦ elim (insert_invoice fails (new_invoice p.invoice_uid provider body sold) s) [
        | none ↦ (failed (db_error Query.insert_invoice), s)
        | some s1 ↦
            let s2 = store_ref fails p.invoice_uid body.affiliate_ref s1 in
            ask_plugin p fails sold.plugin (request_of p.invoice_uid body sold) s2
      ]
    ]

-- `create_default_payment_invoice`
unfoldable pub create_default_payment_invoice :
    Providers
    → (Query → Bool)
    → Registry
    → Session
    → CreateInvoicePayload
    → Desk
    → CreateReply × Desk
create_default_payment_invoice p fails registry session body s = elim registry.default_provider [
  | none ↦ (failed no_default, s)
  | some provider ↦ create_invoice_with_provider p fails registry provider session body s
]
