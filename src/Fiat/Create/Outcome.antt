-- ===== src/Fiat/Create/Outcome.antt =====
-- The invoice that is created, and what is left where the provider fails.
use ppv_stream_rust.Prelude.{
  ℕ, String, ◌≡◌, refl, ◌≢◌, ◌⊎◌, inl, inr, Bool, false, Option, none, some, List, ◌∷◌, arith,
  eq_iff, ◌==◌, Bool-cases, Option-cases, ◌∙◌, ap,
}
use ppv_stream_rust.Prelude.Int.{pos, ◌≤ℤ◌}
use ppv_stream_rust.Prelude.Attempt.{done, Attempt-cases}
use ppv_stream_rust.Tables.{Video, find_video}
use ppv_stream_rust.Wallet.{Session}
use ppv_stream_rust.X402.{Invoice}
use ppv_stream_rust.Fiat.Onchain.{HasMost, create_x402-HasMost}
use ppv_stream_rust.Fiat.{
  CreateInvoiceRequest, ProviderInvoice, FiatStatus, FiatInvoice, Desk, Query, find_invoice,
  with_invoices,
}
use ppv_stream_rust.Fiat.Registry.{Registry, get_plugin}
use ppv_stream_rust.Fiat.Create.{
  CreateInvoicePayload, CreateError, failed, created, provider_failed, Providers, Sale, sale,
  new_invoice, insert_invoice, store_provider, request_of, create_invoice_with_provider, ask_plugin,
  call_plugin, CreateReply,
}
use ppv_stream_rust.Fiat.Create.Rows.{
  IsSynced, insert_invoice-some, ref_row, store_ref-rows, deleted-again, final_row, provided-row,
}

-- What a sale has been made from.
sale-done :
    (fails : Query → Bool) (registry : Registry) (provider : String) (session : Session)
    (body : CreateInvoicePayload) (s : Desk) {sold : Sale}
    → sale fails registry provider session body s ≡ done sold
    → (admin : Bool) × (session ≡ some (sold.buyer_id, admin))
      × (get_plugin registry provider ≡ some sold.plugin)
      × (find_video body.video_id s.main.videos ≡ some sold.video)
      × (sold.video.owner_id ≢ sold.buyer_id)
      × (pos 0 ≤ℤ sold.video.price_cents)
unfolding sale
sale-done fails registry provider session body s {sold} h =
    elim (Option-cases (get_plugin registry provider)) [
      | inl unknown ↦ absurd (ground arith)
      | inr (plugin, has) ↦ elim (Option-cases session) [
        | inl nobody ↦ absurd (ground arith)
        | inr ((uid, admin), who) ↦ elim (Option-cases (find_video body.video_id s.main.videos)) [
          | inl missing ↦ absurd (ground arith)
          | inr (video, listed) ↦ (
            admin,
            ground arith,
            ground arith,
            ground arith,
            ground (arith, eq_iff video.owner_id uid),
            ground arith,
          )
        ]
      ]
    ]

-- Row `i` is the pending invoice of the user of the session for the video of the request.
pub record IsOrdered (session : Session) (body : CreateInvoicePayload) (s : Desk) (i : FiatInvoice)
    : Type 0 where
  pub admin : Bool
  pub video : Video
  pub logged_in : session ≡ some (i.user_id, admin)
  pub listed : find_video body.video_id s.main.videos ≡ some video
  pub not_own : video.owner_id ≢ i.user_id
  pub named : i.video_id ≡ body.video_id
  pub creator : i.creator_id ≡ video.owner_id
  pub amount : i.amount ≡ video.price_cents
  pub not_negative : pos 0 ≤ℤ i.amount
  pub unpaid : i.status ≡ FiatStatus.pending

ref_row-uid :
    (fails : Query → Bool) (ref : Option String) (i : FiatInvoice)
    → (ref_row fails ref i).invoice_uid ≡ i.invoice_uid
ref_row-uid fails ref i = ground arith

ref_row-kept :
    (fails : Query → Bool) (ref : Option String) (i : FiatInvoice)
    → ((ref_row fails ref i).user_id ≡ i.user_id)
      × ((ref_row fails ref i).video_id ≡ i.video_id)
      × ((ref_row fails ref i).creator_id ≡ i.creator_id)
      × ((ref_row fails ref i).amount ≡ i.amount)
      × ((ref_row fails ref i).status ≡ i.status)
ref_row-kept fails ref i = (ground arith, ground arith, ground arith, ground arith, ground arith)

final_row-kept :
    (fails : Query → Bool) (uid : String) (v : ProviderInvoice) (i : FiatInvoice)
    → ((final_row fails uid v i).user_id ≡ i.user_id)
      × ((final_row fails uid v i).video_id ≡ i.video_id)
      × ((final_row fails uid v i).creator_id ≡ i.creator_id)
      × ((final_row fails uid v i).amount ≡ i.amount)
      × ((final_row fails uid v i).status ≡ i.status)
final_row-kept fails uid v i =
    (ground arith, ground arith, ground arith, ground arith, ground arith)

row-IsOrdered :
    (fails : Query → Bool) (registry : Registry) (provider : String) (session : Session)
    (body : CreateInvoicePayload) (s : Desk) (uid : String) (sold : Sale) (v : ProviderInvoice)
    → sale fails registry provider session body s ≡ done sold
    → IsOrdered session body s (
        final_row fails uid v
          (ref_row fails body.affiliate_ref (new_invoice uid provider body sold)))
row-IsOrdered fails registry provider session body s uid sold v e =
    let (admin, who, plugin, listed, other, price) =
      sale-done fails registry provider session body s e in
    let i = new_invoice uid provider body sold in
    let (user, video, creator, amount, status) =
      final_row-kept fails uid v (ref_row fails body.affiliate_ref i) in
    let (user', video', creator', amount', status') = ref_row-kept fails body.affiliate_ref i in
    record {
      admin = admin;
      video = sold.video;
      logged_in = rw (user, user') who;
      listed = listed;
      not_own = rw (user, user') other;
      named = video ∙ video';
      creator = creator ∙ creator';
      amount = amount ∙ amount';
      not_negative = rw (amount, amount') price;
      unpaid = status ∙ status';
    }

-- The tables as they were, except that the x402 plugin, if it is the one that was asked, may have left
-- one pending row more in `x402_invoices`, whose numbers count up.
pub record IsLeft (plugin : Option String) (s s' : Desk) : Type 0 where
  pub rows : List Invoice
  pub next : ℕ
  pub tables : s' ≡ record s { x402_invoices = rows; next_x402 = next }
  pub untouched :
      ((rows ≡ s.x402_invoices) × (next ≡ s.next_x402))
      ⊎ ((plugin ≡ some "x402") × HasMost s.x402_invoices rows)

unchanged : (plugin : Option String) (s : Desk) → IsLeft plugin s s
unchanged plugin s = record {
  rows = s.x402_invoices;
  next = s.next_x402;
  tables = refl;
  untouched = inl (refl, refl);
}

call_plugin-rows :
    (p : Providers) (fails : Query → Bool) (key : String) (request : CreateInvoiceRequest)
    (s : Desk)
    → (answer : Option ProviderInvoice) × (rows : List Invoice) × (next : ℕ) × (call_plugin p fails
          key request s
        ≡ (answer, record s { x402_invoices = rows; next_x402 = next }))
      × (((rows ≡ s.x402_invoices) × (next ≡ s.next_x402))
          ⊎ ((some key ≡ some "x402") × HasMost s.x402_invoices rows))
unfolding call_plugin
call_plugin-rows p fails key request s = elim (Bool-cases (key == "x402")) [
  | inl chain ↦
      let (answer, rows, next, made, most) = create_x402-HasMost p.onchain fails request s in
      (
        answer,
        rows,
        next,
        rw (chain, call_plugin) made,
        inr (ap some ((eq_iff key "x402").0 chain), most),
      )
  | inr other ↦ (
    p.create_invoice key request,
    s.x402_invoices,
    s.next_x402,
    rw (other, call_plugin) refl,
    inl (refl, refl),
  )
]

module _ (p : Providers) (fails : Query → Bool) (key : String) (request : CreateInvoiceRequest)
    (j : FiatInvoice) (s : Desk) where
  -- What the plugin's call and what follows it leave of the tables `s` and a new row `j`.
  abbrev Asked : CreateReply × Desk → Type 0
  Asked out =
      ((out.0 ≡ failed provider_failed) × IsLeft (some key) s out.1)
      ⊎ ((v : ProviderInvoice) × (out.0 ≡ created p.invoice_uid v)
          × (find_invoice p.invoice_uid out.1.invoices ≡ some (final_row fails p.invoice_uid v j))
          × (out.1.main.purchases ≡ s.main.purchases)
          × (out.1.main.users ≡ s.main.users))

  ask_plugin-Asked :
      fails Query.delete_invoice ≡ false
      → IsSynced s
      → j.invoice_uid ≡ p.invoice_uid
      → find_invoice p.invoice_uid s.invoices ≡ none
      → Asked (ask_plugin p fails key request (with_invoices (j ∷ s.invoices) s))
  unfolding ask_plugin store_provider
  ask_plugin-Asked deletes synced named fresh =
      let (answer, rows, next, called, untouched) =
        call_plugin-rows p fails key request (with_invoices (j ∷ s.invoices) s) in
      let t = record s { x402_invoices = rows; next_x402 = next } in
      let t' = with_invoices (j ∷ s.invoices) t in
      let left : (call_plugin p fails key request (with_invoices (j ∷ s.invoices) s)).1 ≡ t' =
        ap (λ x. x.1) called in
      elim (Option-cases answer) [
        | inl declined ↦
            let gone = deleted-again fails j p.invoice_uid t deletes synced named fresh in
            rw (called ∙ ap (λ a. (a, t')) declined, ask_plugin)
              (rw left (
                inl (
                  refl,
                  record { rows = rows; next = next; tables = gone; untouched = untouched },
                )))
        | inr (v, accepted) ↦
            let found = provided-row fails j p.invoice_uid v t named in
            rw (called ∙ ap (λ a. (a, t')) accepted, ask_plugin)
              (rw left (inr (v, refl, found, ground arith, ground arith)))
      ]

-- If the statement that deletes the invoice does not fail, and the table says what `paid_fiat` says: an
-- error leaves every table as it was, also where the provider has failed, except that x402's plugin, if
-- it is the one that was asked, may leave one pending row more in `x402_invoices`, and its number used;
-- and an invoice that is created
-- is stored, pending, for the user of the session, who does not own the video, at the video's price,
-- which is not negative. Purchases and balances do not change.
pub create_invoice_with_provider_cases :
    (p : Providers) (fails : Query → Bool) (registry : Registry) (provider : String)
    (session : Session) (body : CreateInvoicePayload) (s : Desk)
    → fails Query.delete_invoice ≡ false
    → IsSynced s
    → let (r, s') = create_invoice_with_provider p fails registry provider session body s in
      ((e : CreateError) × (r ≡ failed e) × IsLeft (get_plugin registry provider) s s')
      ⊎ ((v : ProviderInvoice) × (i : FiatInvoice) × (r ≡ created p.invoice_uid v)
          × (find_invoice p.invoice_uid s'.invoices ≡ some i)
          × IsOrdered session body s i
          × (s'.main.purchases ≡ s.main.purchases)
          × (s'.main.users ≡ s.main.users))
unfolding create_invoice_with_provider
create_invoice_with_provider_cases p fails registry provider session body s deletes synced =
    elim (Attempt-cases (sale fails registry provider session body s)) [
      | inl (e, stops) ↦ rw (stops, create_invoice_with_provider) (inl (e, refl, unchanged _ s))
      | inr (sold, e) ↦
          let i = new_invoice p.invoice_uid provider body sold in
          elim (Option-cases (insert_invoice fails i s)) [
            | inl lost ↦
                rw (e, lost, create_invoice_with_provider)
                  (inl (CreateError.db_error Query.insert_invoice, refl, unchanged _ s))
            | inr (s1, wrote) ↦
                let (fresh, wrote_row) = insert_invoice-some fails i s wrote in
                let rows = store_ref-rows fails body.affiliate_ref i s fresh in
                let j = ref_row fails body.affiliate_ref i in
                let at_uid : j.invoice_uid ≡ p.invoice_uid =
                  ref_row-uid fails body.affiliate_ref i in
                let (admin, who, plugin, video, other, price) =
                  sale-done fails registry provider session body s e in
                rw (e, wrote, wrote_row, rows, plugin, create_invoice_with_provider)
                  (elim (ask_plugin-Asked p fails sold.plugin (request_of p.invoice_uid body sold) j
                    s deletes synced at_uid fresh) [
                      | inl (declined, left) ↦ inl (provider_failed, declined, left)
                      | inr (v, accepted, found, purchases, users) ↦ inr (
                        v,
                        final_row fails p.invoice_uid v j,
                        accepted,
                        found,
                        row-IsOrdered fails registry provider session body s p.invoice_uid sold v e,
                        purchases,
                        users,
                      )
                    ])
          ]
    ]
