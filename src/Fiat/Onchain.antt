-- ===== src/Fiat/Onchain.antt =====
-- src/plugins/payment/providers/x402.rs: `create_invoice` of the x402 plugin. The libraries for addresses,
-- hashes and signatures are parameters, as in X402/Quote.antt, and so is the parser of numbers.
use ppv_stream_rust.Prelude.{
  ℕ, ◌+◌, String, ◌≡◌, refl, ◌⊎◌, inl, inr, Bool, not, ◌||◌, Option, none, some, List, ◌∷◌, ◌==◌,
  nat_eq, ltb, or_else, is_some, if◌then◌else◌, Bool-cases,
}
use ppv_stream_rust.Prelude.Int.{ℤ, pos, ltb_ℤ}
use ppv_stream_rust.Prelude.Attempt.{
  Attempt, done, stopped, ◌>>=◌, ◌>>◌, or_stop, stop_if, Attempt-cases,
}
use ppv_stream_rust.Text.{trim}
use ppv_stream_rust.Tables.{find_second, find_user, find_video}
use ppv_stream_rust.X402.{InvoiceStatus, Invoice, find_invoice}
use ppv_stream_rust.X402.Quote.{
  bad_key, sign_failed, signed, Signer, StartPayReq, token_amount, find_token, Quote,
}
use ppv_stream_rust.X402.Start.{new_invoice, signed_message}
use ppv_stream_rust.Fiat.{CreateInvoiceRequest, ProviderInvoice, Desk, Query}

-- The plugin: whether its variables and its pool are there, the environment and the libraries, with the
-- UUID that it draws itself, and `parse::<i64>`.
pub record Onchain : Type 0 where
  pub configured : Bool
  pub signer : Signer
  pub parse_i64 : String → Option ℤ

abbrev not_blank : Option String → Option String
not_blank none = none
not_blank (some t) = if trim t == "" then none else some t

-- What is known when the row is inserted. The request is read as one of `x402_start`.
pub record Charge : Type 0 where
  pub body : StartPayReq
  pub quote : Quote
  pub price_cents : ℤ

-- The checks before the row is inserted; the texts of the errors are left out.
unfoldable pub x402_charge :
    Onchain → (Query → Bool) → CreateInvoiceRequest → Desk → Attempt (Unit {0}) Charge
x402_charge c fails request s = do
  stop_if (not c.configured) tt
  chain ← or_stop (not_blank (request.metadata "chain_id")) tt
  chain_id ← or_stop (c.parse_i64 chain) tt
  symbol ← or_stop (not_blank (request.metadata "symbol")) tt
  payer_text ← or_stop (not_blank (request.metadata "payer_address")) tt
  let token_address = not_blank (request.metadata "token_address")
  payer ← or_stop (c.signer.parse_address payer_text) tt
  stop_if (fails Query.select_x402_video) tt
  video ← or_stop (find_video request.video_id s.main.videos) tt
  stop_if (not (is_some (find_user video.owner_id s.main.users))) tt
  wallet ← or_stop (not_blank (or_else (find_second video.owner_id s.wallets) none)) tt
  creator ← or_stop (c.signer.parse_address wallet) tt
  stop_if (fails Query.select_pay_token) tt
  token ← or_stop (find_token chain_id symbol token_address s.tokens) tt
  stop_if (ltb 38 token.decimals) tt
  let price = if ltb_ℤ (pos 0) request.amount_cents then request.amount_cents else video.price_cents
  let amount = token_amount price token.decimals
  stop_if (nat_eq amount 0) tt
  done (record {
    body = record {
      video_id = request.video_id;
      chain_id = chain_id;
      symbol = symbol;
      token_address = token_address;
      payer_address = payer_text;
      ref_code = none;
    };
    quote = record {
      buyer_id = request.user_id;
      video = video;
      payer = payer;
      creator_wallet = wallet;
      creator = creator;
      amount = amount;
    };
    price_cents = price;
  })

abbrev x402_row : Onchain → Charge → ℕ → Invoice
x402_row c q id = record (new_invoice c.signer q.body q.quote id) { price_cents = q.price_cents }

-- INSERT INTO x402_invoices: `invoice_uid` is unique, and the buyer is a reference to `users`.
abbrev row_refused : Onchain → (Query → Bool) → Charge → Desk → Bool
row_refused c fails q s =
    fails Query.insert_x402
    || is_some (find_invoice c.signer.invoice_uid s.x402_invoices)
    || not (is_some (find_user q.quote.buyer_id s.main.users))

-- The signature, once the row is stored. The answer has none of the references that are looked for.
unfoldable pub sign_charge : Onchain → Charge → Option ProviderInvoice
sign_charge c q = elim (c.signer.sign c.signer.admin_key (signed_message c.signer q.body q.quote)) [
  | bad_key ↦ none
  | sign_failed ↦ none
  | signed t ↦
      some (record {
        order_id = none;
        xendit_invoice_id = none;
        session_id = none;
        payment_url = none;
      })
]

unfoldable pub create_x402 :
    Onchain → (Query → Bool) → CreateInvoiceRequest → Desk → Option ProviderInvoice × Desk
create_x402 c fails request s = elim (x402_charge c fails request s) [
  | stopped e ↦ (none, s)
  | done q ↦ if row_refused c fails q s then (none, s) else (
    sign_charge c q,
    record s {
      x402_invoices = x402_row c q s.next_x402 ∷ s.x402_invoices;
      next_x402 = s.next_x402 + 1;
    },
  )
]

-- The rows of `x402_invoices` before, or one pending row more.
abbrev pub HasMost : List Invoice → List Invoice → Type 0
HasMost rows rows' =
    (rows' ≡ rows) ⊎ ((i : Invoice) × (i.status ≡ InvoiceStatus.pending) × (rows' ≡ i ∷ rows))

-- The plugin leaves all other tables as they are.
pub create_x402-HasMost :
    (c : Onchain) (fails : Query → Bool) (request : CreateInvoiceRequest) (s : Desk)
    → (answer : Option ProviderInvoice) × (rows : List Invoice) × (next : ℕ) × (create_x402 c fails
          request s
        ≡ (answer, record s { x402_invoices = rows; next_x402 = next }))
      × HasMost s.x402_invoices rows
unfolding create_x402
create_x402-HasMost c fails request s = elim (Attempt-cases (x402_charge c fails request s)) [
  | inl (e, stops) ↦ (none, s.x402_invoices, s.next_x402, rw (stops, create_x402) refl, inl refl)
  | inr (q, charged) ↦ elim (Bool-cases (row_refused c fails q s)) [
    | inl refused ↦
        (none, s.x402_invoices, s.next_x402, rw (charged, refused, create_x402) refl, inl refl)
    | inr stored ↦ (
      sign_charge c q,
      x402_row c q s.next_x402 ∷ s.x402_invoices,
      s.next_x402 + 1,
      rw (charged, stored, create_x402) refl,
      inr (x402_row c q s.next_x402, refl, refl),
    )
  ]
]
