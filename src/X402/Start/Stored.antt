-- ===== src/X402/Start/Stored.antt =====
-- The invoice that `x402_start` leaves, against its answer.
use ppv_stream_rust.Prelude.{
  ℕ, String, ◌≡◌, refl, ◌≢◌, ◌⊎◌, inl, inr, Bool, true, false, Option, none, some, List, [], ◌∷◌,
  arith, is_some, ◌==◌, Option-cases, Bool-cases, str_refl,
}
use ppv_stream_rust.Prelude.Attempt.{done, Attempt-cases}
use ppv_stream_rust.Tables.{Video, find_video, find_user}
use ppv_stream_rust.Wallet.{Session}
use ppv_stream_rust.X402.{
  InvoiceStatus, Invoice, PayToken, Books, Query, find_invoice, set_affiliate_ref,
}
use ppv_stream_rust.X402.Start.{
  new_invoice, insert_invoice, store_ref, sign_quote, signed_message, x402_start,
}
use ppv_stream_rust.X402.Quote.{
  Signer, Signing, StartPayReq, StartPayResp, started, Quote, quote, owned_video, non_empty,
  token_amount, find_token,
}

-- The pending invoice that a quote leaves.
pub record IsInvoiceFor (env : Signer) (body : StartPayReq) (q : Quote) (i : Invoice) : Type 0 where
  pub hash : i.invoice_uid_hash ≡ some (env.keccak env.invoice_uid)
  pub buyer : i.user_id ≡ q.buyer_id
  pub video : i.video_id ≡ body.video_id
  pub creator : i.creator_id ≡ q.video.owner_id
  pub required : i.required_amount_wei ≡ some q.amount
  pub price : i.price_cents ≡ q.video.price_cents
  pub pending : i.status ≡ InvoiceStatus.pending

find_invoice-set_affiliate_ref :
    (name uid uid' : String) (is : List Invoice) {i : Invoice}
    → find_invoice uid is ≡ some i
    → (j : Invoice) × (find_invoice uid (set_affiliate_ref name uid' is) ≡ some j)
      × (j ≡ record i { affiliate_ref = j.affiliate_ref })
unfolding find_invoice set_affiliate_ref
find_invoice-set_affiliate_ref name uid uid' [] h = cc
find_invoice-set_affiliate_ref name uid uid' (x ∷ is) {i} h =
    elim (Bool-cases (x.invoice_uid == uid)) [
      | inl hit ↦ elim (Bool-cases (x.invoice_uid == uid')) [
        | inl named ↦ (record x { affiliate_ref = some name }, ground arith, ground arith)
        | inr other ↦ (x, ground arith, ground arith)
      ]
      | inr miss ↦
          let (j, found, same) =
            find_invoice-set_affiliate_ref name uid uid' is {i = i} (ground arith) in
          elim (Bool-cases (x.invoice_uid == uid')) [
            | inl named ↦ (j, ground arith, same)
            | inr other ↦ (j, ground arith, same)
          ]
    ]

-- What a quote has been made from.
pub record IsQuoted (env : Signer) (session : Session) (body : StartPayReq) (s : Books) (q : Quote)
    : Type 0 where
  pub admin : Bool
  pub token : PayToken
  pub logged_in : session ≡ some (q.buyer_id, admin)
  pub listed : find_video body.video_id s.main.videos ≡ some q.video
  pub payer : env.parse_address body.payer_address ≡ some q.payer
  pub creator : env.parse_address q.creator_wallet ≡ some q.creator
  pub supported : find_token body.chain_id body.symbol body.token_address s.tokens ≡ some token
  pub amount : q.amount ≡ token_amount q.video.price_cents token.decimals
  pub positive : q.amount ≢ 0

Session-cases :
    (o : Session) → (o ≡ none) ⊎ ((uid : String) × (admin : Bool) × (o ≡ some (uid, admin)))
Session-cases none = inl refl
Session-cases (some (uid, admin)) = inr (uid, admin, refl)

owned_video-listed :
    (fails : Query → Bool) (id : String) (s : Books) {v : Video} {w : Option String}
    → owned_video fails id s ≡ some (v, w)
    → find_video id s.main.videos ≡ some v
owned_video-listed fails id s h = elim (Option-cases (find_video id s.main.videos)) [
  | inl missing ↦ absurd (ground arith)
  | inr (v, e) ↦ ground arith
]

quote-IsQuoted :
    (env : Signer) (fails : Query → Bool) (session : Session) (body : StartPayReq) (s : Books)
    {q : Quote}
    → quote env fails session body s ≡ done q
    → IsQuoted env session body s q
unfolding quote
quote-IsQuoted env fails session body s {q} h = elim (Session-cases session) [
  | inl nobody ↦ absurd (ground arith)
  | inr (uid, admin, who) ↦ elim (Option-cases (env.parse_address body.payer_address)) [
    | inl bad ↦ absurd (ground arith)
    | inr (payer, pays) ↦ elim (Option-cases (owned_video fails body.video_id s)) [
      | inl missing ↦ absurd (ground arith)
      | inr ((video, account), owned) ↦ elim (Option-cases (non_empty account)) [
        | inl no_account ↦ absurd (ground arith)
        | inr (wallet, has) ↦ elim (Option-cases (env.parse_address wallet)) [
          | inl bad ↦ absurd (ground arith)
          | inr (creator, earns) ↦
              elim (Option-cases
                (find_token body.chain_id body.symbol body.token_address s.tokens)) [
                  | inl unknown ↦ absurd (ground arith)
                  | inr (token, supported) ↦
                      let made : q ≡ record {
                        buyer_id = uid;
                        video = video;
                        payer = payer;
                        creator_wallet = wallet;
                        creator = creator;
                        amount = token_amount video.price_cents token.decimals;
                      } =
                        ground arith in
                      record {
                        admin = admin;
                        token = token;
                        logged_in = rw made who;
                        listed = rw made (owned_video-listed fails body.video_id s owned);
                        payer = rw made pays;
                        creator = rw made earns;
                        supported = supported;
                        amount = rw made refl;
                        positive = ground arith;
                      }
                ]
        ]
      ]
    ]
  ]
]

inserted :
    (fails : Query → Bool) (env : Signer) (body : StartPayReq) (q : Quote) (s : Books)
    → fails Query.insert_invoice ≡ false
    → find_invoice env.invoice_uid s.invoices ≡ none
    → is_some (find_user q.buyer_id s.main.users) ≡ true
    → find_invoice env.invoice_uid (insert_invoice fails env body q s).invoices
      ≡ some (new_invoice env body q s.next_invoice)
unfolding insert_invoice find_invoice
inserted fails env body q s wrote fresh known =
    ground (arith, str_refl env.invoice_uid, wrote, fresh, known)

named_for :
    (env : Signer) (body : StartPayReq) (q : Quote) (id : ℕ) (j : Invoice)
    → j ≡ record (new_invoice env body q id) { affiliate_ref = j.affiliate_ref }
    → IsInvoiceFor env body q j
named_for env body q id j same = record {
  hash = ground arith;
  buyer = ground arith;
  video = ground arith;
  creator = ground arith;
  required = ground arith;
  price = ground arith;
  pending = ground arith;
}

with_ref :
    (fails : Query → Bool) (env : Signer) (body : StartPayReq) (q : Quote) (s : Books) (id : ℕ)
    → find_invoice env.invoice_uid s.invoices ≡ some (new_invoice env body q id)
    → (i : Invoice) × (find_invoice env.invoice_uid (store_ref fails env body s).invoices ≡ some i)
      × IsInvoiceFor env body q i
unfolding store_ref
with_ref fails env body q s id found = elim (Option-cases (non_empty body.ref_code)) [
  | inl alone ↦ (
    new_invoice env body q id,
    ground arith,
    named_for env body q id (new_invoice env body q id) refl,
  )
  | inr (name, given) ↦ elim (Bool-cases (fails Query.set_ref)) [
    | inl lost ↦ (
      new_invoice env body q id,
      ground arith,
      named_for env body q id (new_invoice env body q id) refl,
    )
    | inr wrote ↦
        let (j, kept, same) =
          find_invoice-set_affiliate_ref name env.invoice_uid env.invoice_uid s.invoices found in
        (j, ground arith, named_for env body q id j same)
  ]
]

Signing-cases :
    (a : Signing)
    → ((a ≡ Signing.bad_key) ⊎ (a ≡ Signing.sign_failed)) ⊎ ((t : String) × (a ≡ Signing.signed t))
Signing-cases Signing.bad_key = inl (inl refl)
Signing-cases Signing.sign_failed = inl (inr refl)
Signing-cases (Signing.signed t) = inr (t, refl)

sign_quote-started :
    (env : Signer) (body : StartPayReq) (q : Quote) {resp : StartPayResp}
    → sign_quote env body q ≡ started resp
    → (resp.min_amount_wei ≡ q.amount)
      × (env.sign env.admin_key (signed_message env body q) ≡ Signing.signed resp.signature)
unfolding sign_quote
sign_quote-started env body q {resp} h =
    elim (Signing-cases (env.sign env.admin_key (signed_message env body q))) [
      | inl (inl bad) ↦ absurd (ground arith)
      | inl (inr unsigned) ↦ absurd (ground arith)
      | inr (t, e) ↦ (ground arith, ground arith)
    ]

same_main :
    (fails : Query → Bool) (env : Signer) (body : StartPayReq) (q : Quote) (s : Books)
    → (store_ref fails env body (insert_invoice fails env body q s)).main ≡ s.main
unfolding store_ref insert_invoice
same_main fails env body q s = ground arith

-- Where `x402_start` answers with a signature, the invoice could be stored, its identifier is new and
-- the buyer has a row: the answer's amount is the video's price in the token, and so is what the stored
-- invoice requires, the signature is of a message with that amount, and nothing else is written.
pub x402_start_stores :
    (env : Signer) (fails : Query → Bool) (session : Session) (body : StartPayReq) (s : Books)
    (resp : StartPayResp) (uid : String) (admin : Bool)
    → (x402_start env fails session body s).0 ≡ started resp
    → session ≡ some (uid, admin)
    → is_some (find_user uid s.main.users) ≡ true
    → fails Query.insert_invoice ≡ false
    → find_invoice env.invoice_uid s.invoices ≡ none
    → let s' = (x402_start env fails session body s).1 in
      (q : Quote) × (i : Invoice) × IsQuoted env session body s q
      × (find_invoice env.invoice_uid s'.invoices ≡ some i)
      × IsInvoiceFor env body q i
      × (resp.min_amount_wei ≡ q.amount)
      × (env.sign env.admin_key (signed_message env body q) ≡ Signing.signed resp.signature)
      × (s'.main ≡ s.main)
unfolding x402_start
x402_start_stores env fails session body s resp uid admin won who known wrote fresh =
    elim (Attempt-cases (quote env fails session body s)) [
      | inl (e, stops) ↦ absurd (ground arith)
      | inr (q, quoted) ↦
          let made = quote-IsQuoted env fails session body s quoted in
          let buyer : uid ≡ q.buyer_id = ground (arith, made.logged_in) in
          let s1 = insert_invoice fails env body q s in
          let signs = sign_quote-started env body q {resp = resp} (ground arith) in
          let (i, found, matches) =
            with_ref fails env body q s1 s.next_invoice
              (inserted fails env body q s wrote fresh (rw (← buyer) known)) in
          (
            q,
            i,
            made,
            ground arith,
            matches,
            signs.0,
            signs.1,
            ground (arith, same_main fails env body q s),
          )
    ]
