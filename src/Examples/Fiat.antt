-- ===== src/Examples/Fiat.antt =====
-- The theorems on payments through providers, at the example tables: alice buys video "v".
use ppv_stream_rust.Prelude.{
  length, ◌+◌, String, ◌≡◌, refl, ◌⊎◌, inr, Bool, true, false, Option, none, some, List, [], ◌∷◌,
  arith, ◌==◌, if◌then◌else◌,
}
use ppv_stream_rust.Prelude.Int.{ℤ, pos}
use ppv_stream_rust.Text.{
  to_ascii_lowercase, trim, trim_start_matches, trim_end_matches, is_whitespace,
}
use ppv_stream_rust.Tables.{find_user, find_video, find_second}
use ppv_stream_rust.Transaction.{healthy}
use ppv_stream_rust.X402
use ppv_stream_rust.X402.Quote.{bad_key, find_token, token_amount}
use ppv_stream_rust.Fiat.Onchain.{Onchain, create_x402, x402_charge, sign_charge}
use ppv_stream_rust.Fiat.{
  ProviderInvoice, delete_invoices, FiatStatus, FiatInvoice, Desk, Query, PaymentStatus,
  PaymentResult, WebhookRequest, find_invoice, paid_pairs,
}
use ppv_stream_rust.Fiat.Registry.{all_known, get_plugin}
use ppv_stream_rust.Fiat.Providers.{Secrets, xendit_confirm, xendit_status}
use ppv_stream_rust.Fiat.Providers.Signed.{plugin_confirm, IsGenuine, granted-IsGenuine}
use ppv_stream_rust.Prelude.Attempt.{done}
use ppv_stream_rust.Fiat.Webhook.Overtaken.{overlapped, overlapped_pays_out_twice}
use ppv_stream_rust.Fiat.Webhook.Rows.{count_payouts}
use ppv_stream_rust.Fiat.Webhook.{Claim, Plugins, find_claim, accepted, handle_webhook}
use ppv_stream_rust.Fiat.Webhook.Once.{
  Delivery, IsPaidOutOnce, deliver_all, deliver_all-IsPaidOutOnce,
}
use ppv_stream_rust.Fiat.Webhook.Granted.{handle_webhook_ignores_amount}
use ppv_stream_rust.Fiat.Create.{
  provider_failed, sale, insert_invoice, store_ref, delete_invoice, ask_plugin, call_plugin,
  CreateInvoicePayload, CreateError, failed, created, Providers, create_invoice_with_provider,
}
use ppv_stream_rust.Fiat.Create.Outcome.{IsLeft, IsOrdered, create_invoice_with_provider_cases}
use ppv_stream_rust.Examples.{shop, alice}

abbrev works : Query → Bool
works _ = false

abbrev desk : List FiatInvoice → Desk
desk invoices = record {
  invoices = invoices;
  payouts = [];
  banks = ("c", some "BCA 1 a/n Carol") ∷ [];
  emails = [];
  titles = ("v", "Video") ∷ [];
  x402_invoices = [];
  next_x402 = 1;
  tokens =
      record {
        chain_id = pos 1;
        symbol = "T";
        decimals = 0;
        erc20_address = none;
        erc20 = none;
        is_active = true;
      }
      ∷ [];
  wallets = ("c", some "w") ∷ [];
  main = shop;
}

abbrev invoice : FiatInvoice
invoice = record {
  invoice_uid = "u";
  provider = "xendit";
  provider_ref = none;
  payment_url = none;
  user_id = "a";
  video_id = "v";
  creator_id = "c";
  amount = pos 5000;
  currency = "IDR";
  buyer_email = "";
  status = FiatStatus.pending;
  has_paid_at = false;
  disburse_ref = none;
  affiliate_ref = none;
}

abbrev result : PaymentResult
result = record {
  invoice_id = "u";
  transaction_id = some "x";
  status = PaymentStatus.paid;
  paid_amount_cents = pos 5000;
  currency = "IDR";
}

-- A webhook of Xendit with its token: external_id "u" is paid.
abbrev fields : String → Option String
fields path =
    if path == "status" then some "PAID" else if path == "external_id" then some "u" else none

abbrev webhook : WebhookRequest
webhook = record {
  text_at = fields;
  int_at = λ path. none;
  header = λ name. some "token";
  raw = "";
}

abbrev pays_out : String → ℤ → String → Option String
pays_out account amount uid = some "d"

abbrev plugins : PaymentResult → Plugins
plugins r = record { confirm_payment = λ provider. some (λ body. some r); disburse = pays_out }

abbrev delivery : Delivery
delivery = record {
  plugins = plugins result;
  fails = works;
  later = healthy;
  provider = "xendit";
  body = webhook;
}

deliver_all-IsPaidOutOnce_example :
    IsPaidOutOnce "u" (deliver_all (delivery ∷ delivery ∷ []) (desk (invoice ∷ [])))
deliver_all-IsPaidOutOnce_example =
    deliver_all-IsPaidOutOnce (delivery ∷ delivery ∷ []) "u" (desk (invoice ∷ []))
      (refl, (refl, tt)) (record { once = omega arith; after = inr refl })

abbrev cheap : PaymentResult
cheap = record result { paid_amount_cents = pos 1; currency = "USD" }

handle_webhook_ignores_amount_example :
    handle_webhook (plugins result) works healthy "xendit" webhook (desk (invoice ∷ []))
    ≡ handle_webhook (plugins cheap) works healthy "xendit" webhook (desk (invoice ∷ []))
handle_webhook_ignores_amount_example =
    handle_webhook_ignores_amount (plugins result) (plugins cheap) works healthy "xendit" webhook
      (desk (invoice ∷ []))
      (record {
        confirm = λ body. some result;
        confirm' = λ body. some cheap;
        result = result;
        amount = pos 1;
        currency = "USD";
        plugin = refl;
        plugin' = refl;
        reported = refl;
        reported' = refl;
        payouts = refl;
      })

abbrev secrets : Secrets
secrets = record {
  configured = λ key. true;
  stripe_hmac = λ t. t;
  sha512 = λ t. t;
  midtrans_server_key = "k";
  xendit_webhook_token = "token";
  paypal_status = λ b. none;
  upper = λ t. t;
  parse_i64 = λ t. none;
  paypal_cents = λ t. none;
}

granted-IsGenuine_example :
    (key : String) × (get_plugin all_known "Xendit" ≡ some key) × IsGenuine secrets key webhook
unfolding handle_webhook accepted find_claim find_invoice find_user get_plugin to_ascii_lowercase
    plugin_confirm xendit_confirm xendit_status
granted-IsGenuine_example =
    granted-IsGenuine secrets pays_out works healthy "Xendit" webhook (desk (invoice ∷ [])) "u" refl

abbrev payload : CreateInvoicePayload
payload = record {
  video_id = "v";
  currency = "USDC";
  buyer_email = none;
  affiliate_ref = none;
  metadata = λ key.
      if key == "chain_id"
      then some "1"
      else if key == "symbol"
      then some "T"
      else if key == "payer_address"
      then some "x"
      else none;
}

-- The x402 plugin with a key that cannot be read.
abbrev onchain : Onchain
onchain = record {
  configured = true;
  signer = record {
    parse_address = λ t. some 1;
    keccak = λ t. t;
    admin_key = "k";
    sign = λ key message. bad_key;
    creator_split_bp = 9000;
    deadline_secs = 900;
    now = 100;
    invoice_uid = "n";
  };
  parse_i64 = λ t. some (pos 1);
}

abbrev providers : Providers
providers = record { create_invoice = λ key request. none; onchain = onchain; invoice_uid = "u" }

abbrev on_chain : String
on_chain = "x402"

-- The provider fails, and a row of `x402_invoices` is left.
left_behind :
    let (r, s') =
      create_invoice_with_provider providers works all_known on_chain alice payload (desk []) in
    (r ≡ failed provider_failed) × (s'.invoices ≡ []) × (length s'.x402_invoices ≡ 1)
unfolding create_invoice_with_provider sale insert_invoice store_ref delete_invoice delete_invoices
    ask_plugin call_plugin create_x402 x402_charge sign_charge get_plugin to_ascii_lowercase
    find_invoice find_user find_video find_second find_token token_amount X402.find_invoice trim
    trim_start_matches trim_end_matches is_whitespace
left_behind = (refl, refl, refl)

create_invoice_with_provider_cases_example :
    let (r, s') =
      create_invoice_with_provider providers works all_known on_chain alice payload (desk []) in
    ((e : CreateError) × (r ≡ failed e) × IsLeft (get_plugin all_known on_chain) (desk []) s')
    ⊎ ((v : ProviderInvoice) × (i : FiatInvoice) × (r ≡ created "u" v)
        × (find_invoice "u" s'.invoices ≡ some i)
        × IsOrdered alice payload (desk []) i
        × (s'.main.purchases ≡ [])
        × (s'.main.users ≡ shop.users))
unfolding paid_pairs
create_invoice_with_provider_cases_example =
    create_invoice_with_provider_cases providers works all_known on_chain alice payload (desk [])
      refl refl

abbrev claim : Claim
claim = record {
  invoice = invoice;
  buyer_username = "alice";
  creator_bank = some "BCA 1 a/n Carol";
}

accepted_now :
    accepted (plugins result) works "xendit" webhook (desk (invoice ∷ [])) ≡ done (result, claim)
unfolding accepted find_claim find_invoice find_user find_second
accepted_now = refl

overlapped_pays_out_twice_example :
    let s' =
      overlapped
        (plugins result)
        works
        healthy
        works
        healthy
        "xendit"
        webhook
        (desk (invoice ∷ [])) in
    count_payouts "u" s'.payouts ≡ 2 + count_payouts "u" []
unfolding trim trim_start_matches trim_end_matches is_whitespace
overlapped_pays_out_twice_example =
    overlapped_pays_out_twice (plugins result) works works healthy healthy webhook
      (desk (invoice ∷ [])) result claim "BCA 1 a/n Carol" "d" accepted_now accepted_now refl refl
      refl refl
