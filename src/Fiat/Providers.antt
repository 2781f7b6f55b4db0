-- ===== src/Fiat/Providers.antt =====
-- src/plugins/payment/providers/: what the plugins of Stripe, Midtrans, Xendit and PayPal make of a
-- webhook. Digests, PayPal's own verification, `to_uppercase` and the parsing of numbers are parameters.
pub mod Signed
use Prim.Native.String
use ppv_stream_rust.Prelude.{
  ℕ, String, Bool, true, false, not, ◌&&◌, ◌||◌, Option, none, some, List, [], ◌∷◌, ◌==◌, or_else,
  if◌then◌else◌,
}
use ppv_stream_rust.Prelude.Int.{ℤ, pos}
use ppv_stream_rust.Prelude.Attempt.{Attempt, done, stopped, ◌>>=◌, ◌>>◌, or_stop, stop_if}
use ppv_stream_rust.Text.{before, split_char, strip_prefix, trim}
use ppv_stream_rust.Fiat.{PaymentStatus, PaymentResult, WebhookRequest}

-- The configuration of the plugins and the libraries: HMAC-SHA256 under Stripe's webhook secret and
-- SHA-512, both in hexadecimal, and the answer of PayPal's verification endpoint.
pub record Secrets : Type 0 where
  pub configured : String → Bool
  pub stripe_hmac : String → String
  pub sha512 : String → String
  pub midtrans_server_key : String
  pub xendit_webhook_token : String
  pub paypal_status : WebhookRequest → Option String
  pub upper : String → String
  pub parse_i64 : String → Option ℤ
  pub paypal_cents : String → Option ℤ

pub data PluginError : Type 0 where
  not_configured missing_header missing_timestamp bad_signature : PluginError

abbrev text_or : WebhookRequest → String → String → String
text_or b path d = or_else (b.text_at path) d

-- The timestamp and the `v1` signatures of a `Stripe-Signature` header; the last timestamp counts.
pub record StripeHeader : Type 0 where
  pub timestamp : Option String
  pub v1_sigs : List String

abbrev add_segment : String → StripeHeader → StripeHeader
add_segment seg h = record {
  timestamp = elim h.timestamp [ none ↦ strip_prefix seg "t=" | some t ↦ some t ];
  v1_sigs = elim (strip_prefix seg "v1=") [ none ↦ h.v1_sigs | some v ↦ v ∷ h.v1_sigs ];
}

unfoldable pub read_segments : List String → StripeHeader
read_segments [] = record { timestamp = none; v1_sigs = [] }
read_segments (seg ∷ segs) = add_segment seg (read_segments segs)

unfoldable pub has_text : String → List String → Bool
has_text t [] = false
has_text t (u ∷ us) = u == t || has_text t us

-- `verify_signature` of Stripe: the header has a timestamp, and a signature of it with the raw body.
unfoldable pub stripe_verified : Secrets → String → String → Attempt PluginError (Unit {0})
stripe_verified k raw sig = do
  let header = read_segments (split_char 44 sig)
  ts ← or_stop header.timestamp missing_timestamp
  stop_if (not (has_text (k.stripe_hmac (String.◌++◌ ts (String.◌++◌ "." raw))) header.v1_sigs))
      bad_signature

unfoldable pub stripe_status : WebhookRequest → PaymentStatus
stripe_status b =
    let event = text_or b "type" "" in
    if event == "checkout.session.completed"
    then (if text_or b "data.object.payment_status" "" == "paid"
        then PaymentStatus.paid
        else PaymentStatus.pending)
    else if event == "payment_intent.succeeded"
    then PaymentStatus.paid
    else if event == "payment_intent.payment_failed"
    then PaymentStatus.failed
    else if event == "checkout.session.expired"
    then PaymentStatus.expired
    else PaymentStatus.unknown

unfoldable pub stripe_confirm : Secrets → WebhookRequest → Attempt PluginError PaymentResult
stripe_confirm k b = do
  stop_if (not (k.configured "stripe")) not_configured
  sig ← or_stop (b.header "stripe-signature") missing_header
  stripe_verified k b.raw sig
  done (record {
    invoice_id = text_or b "data.object.metadata.invoice_uid" "";
    transaction_id = b.text_at "data.object.payment_intent";
    status = stripe_status b;
    paid_amount_cents = or_else (b.int_at "data.object.amount_total") (pos 0);
    currency = k.upper (text_or b "data.object.currency" "usd");
  })

-- `verify_signature` of Midtrans
abbrev pub midtrans_digest : Secrets → WebhookRequest → String
midtrans_digest k b = k.sha512 (
    String.◌++◌ (text_or b "order_id" "") (
      String.◌++◌ (text_or b "status_code" "")
        (String.◌++◌ (text_or b "gross_amount" "0") k.midtrans_server_key)))

unfoldable pub midtrans_status : WebhookRequest → PaymentStatus
midtrans_status b =
    let status = text_or b "transaction_status" "" in
    let fraud = text_or b "fraud_status" "accept" in
    if (status == "capture" && (fraud == "accept" || fraud == "challenge"))
      || status == "settlement"
    then PaymentStatus.paid
    else if status == "deny" || status == "failure"
    then PaymentStatus.failed
    else if status == "cancel"
    then PaymentStatus.cancelled
    else if status == "expire"
    then PaymentStatus.expired
    else if status == "pending"
    then PaymentStatus.pending
    else PaymentStatus.unknown

unfoldable pub midtrans_confirm : Secrets → WebhookRequest → Attempt PluginError PaymentResult
midtrans_confirm k b = do
  stop_if (not (k.configured "midtrans")) not_configured
  stop_if (not (midtrans_digest k b == text_or b "signature_key" "")) bad_signature
  done (record {
    invoice_id = text_or b "order_id" "";
    transaction_id = b.text_at "transaction_id";
    status = midtrans_status b;
    paid_amount_cents = or_else (k.parse_i64 (before 46 (text_or b "gross_amount" "0"))) (pos 0);
    currency = "IDR";
  })

unfoldable pub xendit_status : WebhookRequest → PaymentStatus
xendit_status b =
    let status = text_or b "status" "PENDING" in
    if status == "PAID" || status == "SETTLED"
    then PaymentStatus.paid
    else if status == "EXPIRED"
    then PaymentStatus.expired
    else PaymentStatus.pending

abbrev xendit_amount : WebhookRequest → ℤ
xendit_amount b = or_else (b.int_at "paid_amount") (or_else (b.int_at "amount") (pos 0))

unfoldable pub xendit_confirm : Secrets → WebhookRequest → Attempt PluginError PaymentResult
xendit_confirm k b = do
  stop_if (not (k.configured "xendit")) not_configured
  token ← or_stop (b.header "x-callback-token") missing_header
  stop_if (not (token == k.xendit_webhook_token)) bad_signature
  done (record {
    invoice_id = text_or b "external_id" "";
    transaction_id = b.text_at "id";
    status = xendit_status b;
    paid_amount_cents = xendit_amount b;
    currency = k.upper (text_or b "currency" "IDR");
  })

unfoldable pub paypal_event_status : WebhookRequest → PaymentStatus
paypal_event_status b =
    let event = text_or b "event_type" "" in
    if event == "CHECKOUT.ORDER.APPROVED" || event == "PAYMENT.CAPTURE.COMPLETED"
    then PaymentStatus.paid
    else if event == "PAYMENT.CAPTURE.DENIED" || event == "PAYMENT.CAPTURE.DECLINED"
    then PaymentStatus.failed
    else if event == "CHECKOUT.ORDER.CANCELLED"
    then PaymentStatus.cancelled
    else PaymentStatus.unknown

abbrev cents_of : Secrets → Option String → ℤ
cents_of k none = pos 0
cents_of k (some v) = or_else (k.paypal_cents v) (pos 0)

unfoldable pub paypal_confirm : Secrets → WebhookRequest → Attempt PluginError PaymentResult
paypal_confirm k b = do
  stop_if (not (k.configured "paypal")) not_configured
  stop_if (not (or_else (k.paypal_status b) "" == "SUCCESS")) bad_signature
  done (record {
    invoice_id =
        or_else (b.text_at "resource.purchase_units[0].custom_id")
          (text_or b "resource.custom_id" "");
    transaction_id = b.text_at "resource.id";
    status = paypal_event_status b;
    paid_amount_cents = cents_of k (b.text_at "resource.amount.value");
    currency = k.upper (text_or b "resource.amount.currency_code" "USD");
  })
