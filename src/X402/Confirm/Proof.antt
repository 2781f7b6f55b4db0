-- ===== src/X402/Confirm/Proof.antt =====
-- What `x402_confirm` has seen on the chain when it writes.
use ppv_stream_rust.Prelude.{
  ℕ, String, ◌≡◌, refl, ◌⊎◌, inl, inr, Bool, true, false, Option, none, some, List, [], ◌∷◌, arith,
  or_else, ◌==◌, eq_iff, Bool-cases, Option-cases,
}
use ppv_stream_rust.Prelude.Attempt.{done}
use ppv_stream_rust.X402.{is_paid, Invoice, Books, Query, find_invoice}
use ppv_stream_rust.X402.Chain.{
  World, Log, Receipt, RpcAnswer, PaidEvent, lowered, names_invoice, is_paid_log, scan,
}
use ppv_stream_rust.X402.Confirm.{names_other, verified}

-- The log is a `Paid` event `e` of the contract for the invoice with the hash `topic`.
pub record Pays (w : World) (topic : String) (e : PaidEvent) (l : Log) : Type 0 where
  pub by_contract : lowered w l.address ≡ w.lower w.x402_contract
  pub first : Option String
  pub second : Option String
  pub others : List (Option String)
  pub topics : l.topics ≡ first ∷ second ∷ others
  pub is_event : lowered w first ≡ w.paid_signature
  pub for_invoice : lowered w second ≡ topic
  pub decoded : w.parse_log l.topics (or_else l.data_hex "") ≡ some e

-- Some log of the list does.
abbrev pub AnyPays : World → String → PaidEvent → List Log → Type 0
AnyPays w topic e [] = ⊥
AnyPays w topic e (l ∷ ls) = Pays w topic e l ⊎ AnyPays w topic e ls

names_invoice-topics :
    (w : World) (topic : String) (ts : List (Option String))
    → names_invoice w topic ts ≡ true
    → (a b : Option String) × (rest : List (Option String)) × (ts ≡ a ∷ b ∷ rest)
      × (lowered w a ≡ w.paid_signature)
      × (lowered w b ≡ topic)
unfolding names_invoice
names_invoice-topics w topic [] h = cc
names_invoice-topics w topic (a ∷ []) h = cc
names_invoice-topics w topic (a ∷ b ∷ rest) h = (
  a,
  b,
  rest,
  refl,
  ground (arith, eq_iff (lowered w a) w.paid_signature),
  ground (arith, eq_iff (lowered w b) topic),
)

scan-AnyPays :
    (w : World) (topic : String) (ls : List Log) {e : PaidEvent}
    → scan w topic ls ≡ some e
    → AnyPays w topic e ls
unfolding scan
scan-AnyPays w topic [] h = cc
scan-AnyPays w topic (l ∷ ls) {e} h = elim (Bool-cases (is_paid_log w topic l)) [
  | inl passes ↦ elim (Option-cases (w.parse_log l.topics (or_else l.data_hex ""))) [
    | inl garbled ↦ inr (scan-AnyPays w topic ls (ground arith))
    | inr (d, parsed) ↦
        let (a, b, rest, ts, event, invoice) =
          names_invoice-topics w topic l.topics (unfold is_paid_log in ground arith) in
        inl (record {
          by_contract =
              unfold is_paid_log in
              ground (arith, eq_iff (lowered w l.address) (w.lower w.x402_contract));
          first = a;
          second = b;
          others = rest;
          topics = ts;
          is_event = event;
          for_invoice = invoice;
          decoded = ground arith;
        })
  ]
  | inr other ↦ inr (scan-AnyPays w topic ls (ground arith))
]

-- A payment of `amount` in transaction `tx` for the invoice with this hash and video, as the chain shows
-- it.
pub record IsPaidOnChain (w : World) (tx : String) (hash : Option String) (video : String)
    (amount : ℕ) : Type 0 where
  pub receipt : Receipt
  pub fetched : w.receipt_of tx ≡ RpcAnswer.answered receipt
  pub succeeded : receipt.status ≡ some "0x1"
  pub event : PaidEvent
  pub logged : AnyPays w (w.lower (or_else hash "")) event receipt.logs
  pub amount_paid : event.amount_wei ≡ some amount
  pub video_named : (event.video_id ≡ none) ⊎ (event.video_id ≡ some video)

RpcAnswer-cases :
    (a : RpcAnswer)
    → ((a ≡ RpcAnswer.rpc_failed) ⊎ (a ≡ RpcAnswer.not_json))
      ⊎ ((r : Receipt) × (a ≡ RpcAnswer.answered r))
RpcAnswer-cases RpcAnswer.rpc_failed = inl (inl refl)
RpcAnswer-cases RpcAnswer.not_json = inl (inr refl)
RpcAnswer-cases (RpcAnswer.answered r) = inr (r, refl)

succeeded_of :
    (status : Option String) → (or_else status "0x0" == "0x1") ≡ true → status ≡ some "0x1"
succeeded_of none h = cc
succeeded_of (some t) h = ground (arith, eq_iff t "0x1")

video_of :
    (e : Option String) (video : String)
    → names_other e video ≡ false
    → (e ≡ none) ⊎ (e ≡ some video)
video_of none video h = inl refl
video_of (some v) video h = inr (ground (arith, eq_iff v video))

module _ (w : World) (fails : Query → Bool) (uid tx : String) (s : Books) where
  pub verified-IsPaidOnChain :
      {i : Invoice} {amount : ℕ}
      → verified w fails uid tx s ≡ done (i, amount)
      → (find_invoice uid s.invoices ≡ some i)
        × (is_paid i.status ≡ false)
        × IsPaidOnChain w tx i.invoice_uid_hash i.video_id amount
  unfolding verified
  verified-IsPaidOnChain {i} {amount} h = elim (Option-cases (find_invoice uid s.invoices)) [
    | inl missing ↦ absurd (ground arith)
    | inr (j, listed) ↦ elim (RpcAnswer-cases (w.receipt_of tx)) [
      | inl (inl lost) ↦ absurd (ground arith)
      | inl (inr garbled) ↦ absurd (ground arith)
      | inr (r, fetched) ↦
          elim (Option-cases (scan w (w.lower (or_else j.invoice_uid_hash "")) r.logs)) [
            | inl silent ↦ absurd (ground arith)
            | inr (e, seen) ↦ elim (Option-cases e.amount_wei) [
              | inl unknown ↦ absurd (ground arith)
              | inr (a, amounts) ↦
                  let same : j ≡ i = ground arith in
                  let same_amount : a ≡ amount = ground arith in
                  (
                    rw (← same) listed,
                    ground arith,
                    record {
                      receipt = r;
                      fetched = fetched;
                      succeeded = succeeded_of r.status (ground arith);
                      event = e;
                      logged = rw (← same) (scan-AnyPays w _ r.logs seen);
                      amount_paid = rw (← same_amount) amounts;
                      video_named = rw (← same) (video_of e.video_id j.video_id (ground arith));
                    },
                  )
            ]
          ]
    ]
  ]
