-- ===== src/Fiat/Providers/Signed.antt =====
-- What a webhook must carry to be granted.
use Prim.Native.String
use ppv_stream_rust.Prelude.{
  String, ◌≡◌, inl, inr, Bool, true, Option, none, some, arith, eq_iff, ◌==◌, or_else,
  if◌then◌else◌, Bool-cases, Option-cases,
}
use ppv_stream_rust.Prelude.Int.{ℤ}
use ppv_stream_rust.Prelude.Attempt.{Attempt, done, stopped, Attempt-cases}
use ppv_stream_rust.Text.{split_char}
use ppv_stream_rust.Transaction.{Faults}
use ppv_stream_rust.Fiat.{Desk, Query, PaymentResult, WebhookRequest}
use ppv_stream_rust.Fiat.Registry.{all_known, get_plugin}
use ppv_stream_rust.Fiat.Providers.{
  Secrets, PluginError, read_segments, has_text, stripe_verified, stripe_confirm, midtrans_digest,
  midtrans_confirm, xendit_confirm, paypal_confirm,
}
use ppv_stream_rust.Fiat.Webhook.{Plugins, granted, accepted, handle_webhook}
use ppv_stream_rust.Fiat.Webhook.Once.{accepted-open}

abbrev ok : Attempt PluginError PaymentResult → Option PaymentResult
ok (done r) = some r
ok (stopped e) = none

-- `confirm_payment` of the plugin with this key; that of x402 always fails.
unfoldable pub plugin_confirm : Secrets → String → WebhookRequest → Option PaymentResult
plugin_confirm k key b =
    if key == "stripe"
    then ok (stripe_confirm k b)
    else if key == "midtrans"
    then ok (midtrans_confirm k b)
    else if key == "xendit"
    then ok (xendit_confirm k b)
    else if key == "paypal"
    then ok (paypal_confirm k b)
    else none

-- The plugins of `handle_webhook`: all that are known, switched on or not.
abbrev pub plugins_of : Secrets → (String → ℤ → String → Option String) → Plugins
plugins_of k disburse = record {
  confirm_payment = λ provider. elim (get_plugin all_known provider) [
    | none ↦ none
    | some key ↦ some (plugin_confirm k key)
  ];
  disburse = disburse;
}

-- The proof that a webhook comes from its provider.
pub data IsGenuine (k : Secrets) (key : String) (b : WebhookRequest) : Type 0 where
  stripe :
      (sig ts : String)
      → key ≡ "stripe"
      → b.header "stripe-signature" ≡ some sig
      → (read_segments (split_char 44 sig)).timestamp ≡ some ts
      → has_text
          (k.stripe_hmac (String.◌++◌ ts (String.◌++◌ "." b.raw)))
          (read_segments (split_char 44 sig)).v1_sigs
        ≡ true
      → IsGenuine k key b
  midtrans :
      key ≡ "midtrans"
      → or_else (b.text_at "signature_key") "" ≡ midtrans_digest k b
      → IsGenuine k key b
  xendit :
      key ≡ "xendit" → b.header "x-callback-token" ≡ some k.xendit_webhook_token → IsGenuine k key b
  paypal : key ≡ "paypal" → k.paypal_status b ≡ some "SUCCESS" → IsGenuine k key b

success_of : (o : Option String) → (or_else o "" == "SUCCESS") ≡ true → o ≡ some "SUCCESS"
success_of none h = cc
success_of (some t) h = ground (arith, eq_iff t "SUCCESS")

module _ (k : Secrets) (key : String) (b : WebhookRequest) where
  stripe-IsGenuine :
      {r : PaymentResult} → key ≡ "stripe" → stripe_confirm k b ≡ done r → IsGenuine k key b
  unfolding stripe_confirm stripe_verified
  stripe-IsGenuine {r} named h = elim (Option-cases (b.header "stripe-signature")) [
    | inl missing ↦ absurd (ground arith)
    | inr (sig, has) ↦ elim (Option-cases (read_segments (split_char 44 sig)).timestamp) [
      | inl untimed ↦ absurd (ground arith)
      | inr (ts, timed) ↦ IsGenuine.stripe sig ts named has timed (ground arith)
    ]
  ]

  midtrans-IsGenuine :
      {r : PaymentResult} → key ≡ "midtrans" → midtrans_confirm k b ≡ done r → IsGenuine k key b
  unfolding midtrans_confirm
  midtrans-IsGenuine {r} named h =
      IsGenuine.midtrans named
        (ground (arith, eq_iff (midtrans_digest k b) (or_else (b.text_at "signature_key") "")))

  xendit-IsGenuine :
      {r : PaymentResult} → key ≡ "xendit" → xendit_confirm k b ≡ done r → IsGenuine k key b
  unfolding xendit_confirm
  xendit-IsGenuine {r} named h = elim (Option-cases (b.header "x-callback-token")) [
    | inl missing ↦ absurd (ground arith)
    | inr (token, has) ↦
        IsGenuine.xendit named (ground (arith, eq_iff token k.xendit_webhook_token))
  ]

  paypal-IsGenuine :
      {r : PaymentResult} → key ≡ "paypal" → paypal_confirm k b ≡ done r → IsGenuine k key b
  unfolding paypal_confirm
  paypal-IsGenuine {r} named h =
      IsGenuine.paypal named (success_of (k.paypal_status b) (ground arith))

ok-done : (a : Attempt PluginError PaymentResult) {r : PaymentResult} → ok a ≡ some r → a ≡ done r
ok-done (done q) h = cc
ok-done (stopped e) h = cc

plugin_confirm-IsGenuine :
    (k : Secrets) (key : String) (b : WebhookRequest) {r : PaymentResult}
    → plugin_confirm k key b ≡ some r
    → IsGenuine k key b
unfolding plugin_confirm
plugin_confirm-IsGenuine k key b {r} h = elim (Bool-cases (key == "stripe")) [
  | inl is ↦
      stripe-IsGenuine k key b {r = r} ((eq_iff key "stripe").0 is)
        (ok-done (stripe_confirm k b) (ground arith))
  | inr not_stripe ↦ elim (Bool-cases (key == "midtrans")) [
    | inl is ↦
        midtrans-IsGenuine k key b {r = r} ((eq_iff key "midtrans").0 is)
          (ok-done (midtrans_confirm k b) (ground arith))
    | inr not_midtrans ↦ elim (Bool-cases (key == "xendit")) [
      | inl is ↦
          xendit-IsGenuine k key b {r = r} ((eq_iff key "xendit").0 is)
            (ok-done (xendit_confirm k b) (ground arith))
      | inr not_xendit ↦ elim (Bool-cases (key == "paypal")) [
        | inl is ↦
            paypal-IsGenuine k key b {r = r} ((eq_iff key "paypal").0 is)
              (ok-done (paypal_confirm k b) (ground arith))
        | inr unknown ↦ absurd (ground arith)
      ]
    ]
  ]
]

-- With the plugins of the program, whatever statements fail: a webhook is answered as granted only if it
-- carries the proof of its provider, whose key the request names: a signature of its raw body for
-- Stripe, the digest for Midtrans, the token for Xendit, and for PayPal a verification that succeeds.
pub granted-IsGenuine :
    (k : Secrets) (disburse : String → ℤ → String → Option String) (fails : Query → Bool)
    (later : Faults) (provider : String) (b : WebhookRequest) (s : Desk) (uid : String)
    → (handle_webhook (plugins_of k disburse) fails later provider b s).0 ≡ granted uid
    → (key : String) × (get_plugin all_known provider ≡ some key) × IsGenuine k key b
unfolding handle_webhook
granted-IsGenuine k disburse fails later provider b s uid won =
    let p = plugins_of k disburse in
    elim (Attempt-cases (accepted p fails provider b s)) [
      | inl (r, e) ↦ absurd (ground arith)
      | inr ((result, claim), e) ↦
          let (confirm, plugin, reported, paid, claimed, unfinished) =
            accepted-open p fails provider b s e in
          elim (Option-cases (get_plugin all_known provider)) [
            | inl unknown ↦ absurd (ground arith)
            | inr (key, known) ↦
                (key, known, plugin_confirm-IsGenuine k key b {r = result} (ground arith))
          ]
    ]
