-- ===== src/Fiat/Registry.antt =====
-- src/plugins/payment/registry.rs: which providers are registered, and which is the default.
use ppv_stream_rust.Prelude.{
  String, ◌≡◌, refl, inl, inr, Bool, true, false, ◌||◌, Option, none, some, List, [], ◌∷◌, ◌++◌,
  ◌==◌, arith, if◌then◌else◌, eq_iff, Bool-cases, Option-cases,
}
use ppv_stream_rust.Text.{to_ascii_lowercase, trim}
use ppv_stream_rust.Settings.{PaymentSettings, is_provider_enabled, provider_key}

-- `PaymentPluginRegistry`, with the keys of its plugins in the order of `names`.
pub record Registry : Type 0 where
  pub keys : List String
  pub default_provider : Option String

abbrev pub contains_key : String → List String → Bool
contains_key k [] = false
contains_key k (j ∷ js) = j == k || contains_key k js

abbrev when : Bool → String → List String
when b k = if b then k ∷ [] else []

abbrev first : List String → Option String
first [] = none
first (k ∷ ks) = some k

-- The keys of the enabled plugins, sorted.
unfoldable pub enabled_keys : PaymentSettings → List String
enabled_keys s =
    when s.midtrans_enabled "midtrans"
    ++ (when s.paypal_enabled "paypal"
        ++ (when s.stripe_enabled "stripe"
            ++ (when s.x402_enabled "x402" ++ when s.xendit_enabled "xendit")))

-- `from_settings`
unfoldable pub from_settings : PaymentSettings → Registry
from_settings s =
    let keys = enabled_keys s in
    record {
      keys = keys;
      default_provider = elim s.default_provider [
        | none ↦ first keys
        | some name ↦ if contains_key name keys then some name else first keys
      ];
    }

-- `from_all_env_known_with_pool`
abbrev pub all_known : Registry
all_known = record {
  keys = "midtrans" ∷ "paypal" ∷ "stripe" ∷ "x402" ∷ "xendit" ∷ [];
  default_provider = some "midtrans";
}

-- `get`: the key of the plugin
unfoldable pub get_plugin : Registry → String → Option String
get_plugin r provider =
    let key = to_ascii_lowercase provider in if contains_key key r.keys then some key else none

midtrans_setting : (s : PaymentSettings) → is_provider_enabled s "midtrans" ≡ s.midtrans_enabled
unfolding is_provider_enabled provider_key to_ascii_lowercase trim
midtrans_setting s = refl

paypal_setting : (s : PaymentSettings) → is_provider_enabled s "paypal" ≡ s.paypal_enabled
unfolding is_provider_enabled provider_key to_ascii_lowercase trim
paypal_setting s = refl

stripe_setting : (s : PaymentSettings) → is_provider_enabled s "stripe" ≡ s.stripe_enabled
unfolding is_provider_enabled provider_key to_ascii_lowercase trim
stripe_setting s = refl

x402_setting : (s : PaymentSettings) → is_provider_enabled s "x402" ≡ s.x402_enabled
unfolding is_provider_enabled provider_key to_ascii_lowercase trim
x402_setting s = refl

xendit_setting : (s : PaymentSettings) → is_provider_enabled s "xendit" ≡ s.xendit_enabled
unfolding is_provider_enabled provider_key to_ascii_lowercase trim
xendit_setting s = refl

-- A key of the registry names a provider that is switched on.
enabled_key :
    (s : PaymentSettings) (k : String)
    → contains_key k (enabled_keys s) ≡ true
    → is_provider_enabled s k ≡ true
unfolding enabled_keys
enabled_key s k h = ground (
  arith,
  eq_iff "midtrans" k,
  eq_iff "paypal" k,
  eq_iff "stripe" k,
  eq_iff "x402" k,
  eq_iff "xendit" k,
  midtrans_setting s,
  paypal_setting s,
  stripe_setting s,
  x402_setting s,
  xendit_setting s,
)

first-contained : (ks : List String) {k : String} → first ks ≡ some k → contains_key k ks ≡ true
first-contained [] h = cc
first-contained (j ∷ ks) {k} h = ground (arith, eq_iff j k)

-- The default provider of the registry is one that the administrator has switched on, also where the
-- setting names one that is switched off.
pub default_provider_enabled :
    (s : PaymentSettings) (k : String)
    → (from_settings s).default_provider ≡ some k
    → is_provider_enabled s k ≡ true
unfolding from_settings
default_provider_enabled s k h = enabled_key s k (elim (Option-cases s.default_provider) [
  | inl unset ↦ first-contained (enabled_keys s) (ground arith)
  | inr (name, set) ↦ elim (Bool-cases (contains_key name (enabled_keys s))) [
    | inl known ↦ ground arith
    | inr unknown ↦ first-contained (enabled_keys s) (ground arith)
  ]
])
