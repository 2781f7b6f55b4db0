-- ===== src/Lib.antt =====
-- Verification of a pay-per-view video platform: its wallet, affiliate commissions, access checks,
-- creator blocks, payments on chain and through providers, accounts, sessions, playback, HTTP
-- middleware, revenue sharing and federation delivery.
--
-- The program is a web server in Rust. Its handlers read and write PostgreSQL tables by single SQL
-- statements or by transactions; the state of the program is those tables. Each module models one
-- part, a function per handler, with its guards in the order of the code:
--   * Prelude: names, signed integers, 64-bit words and early returns that all modules share;
--   * Text: the functions of Rust's `str` that the code calls;
--   * Settings: src/payment_settings.rs;
--   * Tables: the tables of the wallet (migrations/028_wallet.sql and sql/) and their SQL statements,
--     with the invariant of the tables in Tables/Sound.antt;
--   * Transaction: what the handlers rely on of PostgreSQL through sqlx;
--   * Commission: src/commission.rs, `process_affiliate_commission`;
--   * Wallet: src/handlers/wallet.rs and the wallet handlers of src/handlers/admin.rs:
--     Wallet/Requests.antt has `wallet_deposit` and `wallet_withdraw`, Wallet/Transfer.antt
--     `wallet_transfer`, Wallet/Payment.antt `wallet_pay_video`, Wallet/Admin.antt the approval,
--     completion and rejection, and Wallet/Runs.antt any sequence of these requests;
--   * Access: `user_has_view_access` of src/handlers/video.rs, which a purchase feeds;
--   * Blocks: src/handlers/creator_block.rs and src/creator_block.rs, and the trigger by which a block
--     refuses a purchase;
--   * Stream: the delivery of playback files and the clean-up of sessions in src/handlers/stream.rs,
--     and in Stream/Admission.antt and Stream/Play.antt its `request_play`, where the turns of the loop
--     that waits are a list;
--   * Middleware: src/middleware.rs;
--   * Shares and Revenue: src/federation/revenue.rs, with sql/041_federation_revenue.sql; the first has
--     the tables and the arithmetic;
--   * Delivery: src/federation/delivery.rs and `retry_delivery_job` of src/federation/moderation.rs;
--   * Moderation: the rules on domains, src/federation/moderation.rs;
--   * Affiliate: the settings and the referral link of src/handlers/affiliate.rs;
--   * Unlock: the two statements by which a payment opens a video, shared by X402 and Fiat;
--   * X402: payments on an EVM chain. X402/Quote.antt and X402/Start.antt have `x402_start` of
--     src/handlers/pay.rs and the message of contracts/contracts/X402Splitter.sol, X402/Chain.antt the
--     search of a receipt's logs, X402/Confirm.antt `x402_confirm`, X402/Watcher.antt
--     src/services/x402_watcher.rs;
--   * Options: `pay_options` and `all_options` of src/handlers/pay.rs;
--   * Fiat: payments through plugins (PayPal, Stripe, Midtrans, Xendit, x402). Fiat/Registry.antt has
--     src/plugins/payment/registry.rs, Fiat/Providers.antt the `confirm_payment` of each plugin in
--     src/plugins/payment/providers/, Fiat/Onchain.antt the `create_invoice` of the x402
--     plugin there, and Fiat/Create.antt and Fiat/Webhook.antt the creation of an invoice and
--     `handle_webhook` of src/handlers/payment_plugins.rs;
--   * Sessions: src/sessions.rs, whose `current_user_id` gives the session that the handlers take;
--   * Accounts: src/handlers/auth_user.rs, src/handlers/auth_admin.rs and src/validators.rs;
--   * Examples: small inputs on which the definitions are run.
--
-- How the code is represented. A handler is a function from the tables, the session and the fields of
-- the request to its answer and the tables afterwards. Any SQL statement may fail: which ones do is an
-- argument of every handler. A transaction carries the tables as it sees them and whether a statement
-- in it has failed; its locks make it one step. A sequence of requests runs each to its end before the
-- next; requests that overlap are in the modules named Overtaken, in Revenue/Books/Runs.antt and in
-- `stale_order_charges_again` of Wallet/Payment/Succeeds.antt. An `i64` is an integer whose sums and
-- differences wrap at 2 ^ 64, products with basis points are taken at 128 bits as in the code, and
-- amounts are cents.
-- `Uuid::new_v4` and the serial column count up. No definition needs fuel: the loops run over lists.
--
-- Code outside the repository's own is an argument: the chain's node, hashes, signatures, Base64,
-- Argon2, the file system and ffmpeg, the providers' servers. Times and amounts of tokens are natural
-- numbers.
--
-- Not modelled: the text of the answers, the columns that are only stored, and the parts of the
-- repository that are input and output, such as pages, uploads, ffmpeg, mail and the HTTP client.
pub mod Prelude
pub mod Settings
pub mod Tables
pub mod Text
pub mod Transaction
pub mod Commission
pub mod Wallet
pub mod Access
pub mod Middleware
pub mod Shares
pub mod Revenue
pub mod Delivery
pub mod Moderation
pub mod Stream
pub mod Blocks
pub mod Affiliate
pub mod Unlock
pub mod X402
pub mod Options
pub mod Fiat
pub mod Sessions
pub mod Accounts
pub mod Examples
