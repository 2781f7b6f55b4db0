-- ===== src/Settings.antt =====
-- src/payment_settings.rs: which payment methods the administrator has switched on.
use ppv_stream_rust.Text.{trim, to_ascii_lowercase}
use ppv_stream_rust.Prelude.{Bool, true, String, Option, none, some, if◌then◌else◌, ◌==◌, false}

pub record PaymentSettings : Type 0 where
  pub wallet_payment_enabled : Bool
  pub wallet_transfer_enabled : Bool
  pub paypal_enabled : Bool
  pub stripe_enabled : Bool
  pub xendit_enabled : Bool
  pub midtrans_enabled : Bool
  pub x402_enabled : Bool
  pub default_provider : Option String

-- `PaymentSettings::default`
abbrev pub default_settings : PaymentSettings
default_settings = record {
  wallet_payment_enabled = true;
  wallet_transfer_enabled = true;
  paypal_enabled = true;
  stripe_enabled = true;
  xendit_enabled = true;
  midtrans_enabled = true;
  x402_enabled = true;
  default_provider = none;
}

abbrev non_empty : Option String → Option String
non_empty none = none
non_empty (some s) = if s == "" then none else some s

-- The name of a provider as it is compared: trimmed and in lower case.
unfoldable pub provider_key : String → String
provider_key name = to_ascii_lowercase (trim name)

abbrev default_key : Option String → Option String
default_key none = none
default_key (some name) = non_empty (some (provider_key name))

-- `is_provider_enabled`
unfoldable pub is_provider_enabled : PaymentSettings → String → Bool
is_provider_enabled s provider =
    let key = provider_key provider in
    if key == "paypal"
    then s.paypal_enabled
    else if key == "stripe"
    then s.stripe_enabled
    else if key == "xendit"
    then s.xendit_enabled
    else if key == "midtrans"
    then s.midtrans_enabled
    else if key == "x402"
    then s.x402_enabled
    else false

-- `load_payment_settings`: the stored row, or the defaults where there is none or the query fails.
unfoldable pub load_payment_settings : Bool → Option PaymentSettings → PaymentSettings
load_payment_settings failed none = default_settings
load_payment_settings failed (some r) =
    if failed
    then default_settings
    else record r { default_provider = default_key r.default_provider }
