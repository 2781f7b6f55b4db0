-- ===== src/X402/Chain.antt =====
-- What `x402_confirm` (src/handlers/pay.rs) reads of the chain: a transaction's receipt and its logs.
-- The RPC endpoint and the libraries that decode hexadecimal text and ABI data are parameters.
use ppv_stream_rust.Prelude.{
  ℕ, String, Bool, false, ◌&&◌, Option, none, some, List, [], ◌∷◌, ◌==◌, or_else, if◌then◌else◌,
}

-- A log in JSON. A topic that is not a text is `none`, as are a missing address and missing data.
pub record Log : Type 0 where
  pub address : Option String
  pub topics : List (Option String)
  pub data_hex : Option String

pub record Receipt : Type 0 where
  pub status : Option String
  pub logs : List Log

-- What `eth_getTransactionReceipt` ends in.
pub data RpcAnswer : Type 0 where
  rpc_failed not_json : RpcAnswer
  answered : Receipt → RpcAnswer

-- The two values that the handler takes from a decoded `Paid` event.
pub record PaidEvent : Type 0 where
  pub amount_wei : Option ℕ
  pub video_id : Option String

-- The environment: the variables X402_RPC_HTTP and X402_CONTRACT_ADDRESS, empty where unset, the
-- topic of the `Paid` event, `str::to_lowercase`, the endpoint, and `ethabi`'s `parse_log` on the
-- topics and the data of a log.
pub record World : Type 0 where
  pub rpc_url : String
  pub x402_contract : String
  pub paid_signature : String
  pub lower : String → String
  pub receipt_of : String → RpcAnswer
  pub parse_log : List (Option String) → String → Option PaidEvent

-- `value.as_str().unwrap_or("").to_lowercase()`
abbrev pub lowered : World → Option String → String
lowered w o = w.lower (or_else o "")

-- The first two topics: the event's signature and the invoice's hash.
unfoldable pub names_invoice : World → String → List (Option String) → Bool
names_invoice w topic [] = false
names_invoice w topic (t ∷ []) = false
names_invoice w topic (t ∷ t' ∷ rest) = lowered w t == w.paid_signature && lowered w t' == topic

-- The tests by which the loop passes a log over.
unfoldable pub is_paid_log : World → String → Log → Bool
is_paid_log w topic l =
    lowered w l.address == w.lower w.x402_contract && names_invoice w topic l.topics

-- The loop `'scan`: the first log that passes and is decoded.
unfoldable pub scan : World → String → List Log → Option PaidEvent
scan w topic [] = none
scan w topic (l ∷ ls) =
    let rest = scan w topic ls in
    if is_paid_log w topic l
    then elim (w.parse_log l.topics (or_else l.data_hex "")) [ none ↦ rest | some e ↦ some e ]
    else rest
