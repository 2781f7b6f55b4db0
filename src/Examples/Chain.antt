-- ===== src/Examples/Chain.antt =====
-- The theorems on payments by x402, at the example tables: alice buys video "v" in transaction "t".
use ppv_stream_rust.Prelude.{
  ℕ, ◌+◌, ◌≤◌, ◌<◌, String, ◌≡◌, refl, ◌⊎◌, inl, inr, Bool, true, false, none, some, List, [], ◌∷◌,
  arith, eq_iff,
}
use ppv_stream_rust.Prelude.Int.{pos}
use ppv_stream_rust.Tables.{find_second, User, find_user, find_video}
use ppv_stream_rust.Settings.{load_payment_settings}
use ppv_stream_rust.Transaction.{healthy}
use ppv_stream_rust.Access.{user_has_view_access}
use ppv_stream_rust.Access.Cases.{answered}
use ppv_stream_rust.Wallet.Payment.{owner_blocks}
use ppv_stream_rust.X402.{InvoiceStatus, is_paid, Invoice, PayToken, Books, Query, find_invoice}
use ppv_stream_rust.X402.Chain.{
  World, Log, Receipt, RpcAnswer, PaidEvent, scan, is_paid_log, names_invoice,
}
use ppv_stream_rust.X402.Confirm.{
  Refusal, refused, underpaid, confirmed, required_of, verified, settle_invoice, x402_confirm,
}
use ppv_stream_rust.X402.Confirm.Proof.{IsPaidOnChain, AnyPays}
use ppv_stream_rust.X402.Confirm.Cases.{x402_confirm_cases}
use ppv_stream_rust.X402.Confirm.Access.{x402_confirm_unlocks}
use ppv_stream_rust.X402.Confirm.Partial.{confirm_each, IsOpen, short_payments_never_unlock}
use ppv_stream_rust.X402.Confirm.Progress.{Advanced, Request, confirm_all, confirm_all-Steps}
use ppv_stream_rust.X402.Confirm.Succeeds.{Evidence}
use ppv_stream_rust.X402.Start.{sign_quote, signed_message, x402_start}
use ppv_stream_rust.X402.Quote.{
  Signer, Signing, StartPayReq, StartPayResp, started, quote, token_amount, find_token,
}
use ppv_stream_rust.X402.Rounds.{x402_start-confirm_unlocks}
use ppv_stream_rust.X402.Watcher.{find_hash, handle_paid_event}
use ppv_stream_rust.X402.Watcher.First.{watched_first_pays_no_commission}
use ppv_stream_rust.Examples.{shop, alice, differ}

abbrev pub works : Query → Bool
works _ = false

abbrev paid_log : Log
paid_log = record { address = some "c"; topics = some "p" ∷ some "u" ∷ []; data_hex = some "" }

abbrev receipt : Receipt
receipt = record { status = some "0x1"; logs = paid_log ∷ [] }

-- Every transaction pays `amount`.
abbrev chain : ℕ → World
chain amount = record {
  rpc_url = "r";
  x402_contract = "c";
  paid_signature = "p";
  lower = λ t. t;
  receipt_of = λ tx. RpcAnswer.answered receipt;
  parse_log = λ topics bytes. some (record { amount_wei = some amount; video_id = some "v" });
}

abbrev invoice : Invoice
invoice = record {
  id = 1;
  invoice_uid = "u";
  invoice_uid_hash = some "u";
  user_id = "a";
  video_id = "v";
  creator_id = "c";
  chain_id = pos 1;
  token_symbol = "T";
  token_address = none;
  price_cents = pos 5000;
  required_amount_wei = some 50;
  paid_amount_wei = some 0;
  status = InvoiceStatus.pending;
  tx_hash = none;
  payer_address = none;
  affiliate_ref = none;
}

abbrev token : PayToken
token = record {
  chain_id = pos 1;
  symbol = "T";
  decimals = 0;
  erc20_address = none;
  erc20 = none;
  is_active = true;
}

abbrev pub books : List Invoice → Books
books invoices = record {
  invoices = invoices;
  next_invoice = 1;
  tokens = token ∷ [];
  wallets = ("c", some "w") ∷ [];
  remote = [];
  main = shop;
}

abbrev alice_row : User
alice_row = record { id = "a"; username = "alice"; is_admin = false; balance_cents = pos 20000 }

confirmed_now : (x402_confirm (chain 50) works healthy "u" "t" (books (invoice ∷ []))).0 ≡ confirmed
unfolding x402_confirm verified settle_invoice find_invoice scan is_paid_log names_invoice
confirmed_now = refl

x402_confirm_cases_example :
    let (r, s') = x402_confirm (chain 50) works healthy "u" "t" (books (invoice ∷ [])) in
    ((e : Refusal) × (r ≡ refused e) × (s' ≡ books (invoice ∷ [])))
    ⊎ ((i : Invoice) × (amount : ℕ) × (missing : ℕ) × (r ≡ underpaid missing)
        × (find_invoice "u" (books (invoice ∷ [])).invoices ≡ some i)
        × IsPaidOnChain (chain 50) "t" i.invoice_uid_hash i.video_id amount
        × (amount < required_of i)
        × (missing + amount ≡ required_of i)
        × (s'.main ≡ shop))
    ⊎ ((i : Invoice) × (amount : ℕ) × (r ≡ confirmed)
        × (find_invoice "u" (books (invoice ∷ [])).invoices ≡ some i)
        × (is_paid i.status ≡ false)
        × IsPaidOnChain (chain 50) "t" i.invoice_uid_hash i.video_id amount
        × (required_of i ≤ amount))
x402_confirm_cases_example =
    x402_confirm_cases (chain 50) works healthy "u" "t" (books (invoice ∷ []))

x402_confirm_unlocks_example :
    let after = (x402_confirm (chain 50) works healthy "u" "t" (books (invoice ∷ []))).1.main in
    (user_has_view_access answered "v" "a" after ≡ true)
    × ((owner_blocks "a" "v" shop ≡ false) ⊎ (after.purchases ≡ []))
unfolding find_invoice find_user
x402_confirm_unlocks_example =
    x402_confirm_unlocks (chain 50) works healthy "u" "t" (books (invoice ∷ [])) invoice alice_row
      confirmed_now refl refl (differ "alice" "" refl) refl refl

same_amount :
    (n : ℕ) (topic : String) (e : PaidEvent) (logs : List Log)
    → AnyPays (chain n) topic e logs
    → e.amount_wei ≡ some n
same_amount n topic e [] h = absurd h
same_amount n topic e (l ∷ logs) (inl p) = ground (arith, p.decoded)
same_amount n topic e (l ∷ logs) (inr rest) = same_amount n topic e logs rest

-- Each transaction pays 20 of 50.
each_short :
    (tx : String) (amount : ℕ)
    → IsPaidOnChain (chain 20) tx invoice.invoice_uid_hash invoice.video_id amount
    → amount < 50
each_short tx amount p =
    ground (arith, same_amount 20 "u" p.event p.receipt.logs p.logged, p.amount_paid)

abbrev three_times : List ((Query → Bool) × String)
three_times = (works, "t") ∷ (works, "t'") ∷ (works, "t''") ∷ []

short_payments_never_unlock_example :
    IsOpen "u" invoice (confirm_each (chain 20) healthy "u" three_times (books (invoice ∷ [])))
    × ((confirm_each (chain 20) healthy "u" three_times (books (invoice ∷ []))).main ≡ shop)
unfolding find_invoice
short_payments_never_unlock_example =
    short_payments_never_unlock (chain 20) healthy "u" invoice three_times (books (invoice ∷ []))
      refl refl each_short

abbrev request : ℕ → String → Request
request amount tx = record {
  world = chain amount;
  fails = works;
  later = healthy;
  uid = "u";
  tx = tx;
}

one_key :
    (u v : String) (a b : Invoice)
    → find_invoice u (invoice ∷ []) ≡ some a
    → find_invoice v (invoice ∷ []) ≡ some b
    → a.id ≡ b.id
    → u ≡ v
unfolding find_invoice
one_key u v a b p q same = ground (arith, eq_iff "u" u, eq_iff "u" v)

confirm_all-Steps_example :
    Advanced "u" invoice
      (confirm_all (request 20 "t" ∷ request 60 "t'" ∷ []) (books (invoice ∷ [])))
unfolding find_invoice
confirm_all-Steps_example =
    confirm_all-Steps (request 20 "t" ∷ request 60 "t'" ∷ []) "u" invoice (books (invoice ∷ []))
      one_key refl

abbrev pub signer : Signer
signer = record {
  parse_address = λ t. some 1;
  keccak = λ t. t;
  admin_key = "k";
  sign = λ key message. Signing.signed "s";
  creator_split_bp = 9000;
  deadline_secs = 900;
  now = 100;
  invoice_uid = "u";
}

abbrev pub order : StartPayReq
order = record {
  video_id = "v";
  chain_id = pos 1;
  symbol = "T";
  token_address = none;
  payer_address = "x";
  ref_code = none;
}

abbrev pub answer : StartPayResp
answer = record {
  invoice_uid = "u";
  invoice_uid_bytes32 = "u";
  amount_wei = 50;
  min_amount_wei = 50;
  deadline = 1000;
  signature = "s";
  split_creator_bp = 9000;
  split_admin_bp = 1000;
  creator_wallet = "w";
}

started_now : (x402_start signer works alice order (books [])).0 ≡ started answer
unfolding x402_start quote find_video find_user find_second find_token token_amount sign_quote
    signed_message load_payment_settings
started_now = refl

shown : Evidence (chain 50) "t" (some "u") "v" 50
unfolding is_paid_log names_invoice
shown = record {
  reachable = differ "r" "" refl;
  before = [];
  after = [];
  log = paid_log;
  receipt = receipt;
  fetched = refl;
  status_ok = refl;
  logs = refl;
  others = tt;
  passes = refl;
  decoded = refl;
}

x402_start-confirm_unlocks_example :
    let (r, s') =
      x402_confirm
        (chain 50)
        works
        healthy
        "u"
        "t"
        (x402_start signer works alice order (books [])).1 in
    (r ≡ confirmed) × (user_has_view_access answered "v" "a" s'.main ≡ true)
unfolding find_user find_invoice
x402_start-confirm_unlocks_example =
    x402_start-confirm_unlocks signer (chain 50) works works healthy alice order (books []) answer
      "a" "t" false alice_row 50 started_now refl refl (differ "alice" "" refl) refl refl
      (differ "u" "" refl) (differ "t" "" refl) refl refl refl shown (omega arith)

watched_first_pays_no_commission_example :
    let watched = handle_paid_event (λ t. t) works "u" "x" "v" (books (invoice ∷ [])) in
    ((x402_confirm (chain 50) works healthy "u" "t" watched).1 ≡ watched)
    × (watched.main.commissions ≡ [])
    × (watched.main.users ≡ shop.users)
unfolding find_hash find_invoice
watched_first_pays_no_commission_example =
    watched_first_pays_no_commission (λ t. t) (chain 50) works works healthy "u" "x" "v" "u" "t"
      (books (invoice ∷ [])) invoice refl refl refl refl
