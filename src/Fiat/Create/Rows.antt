-- ===== src/Fiat/Create/Rows.antt =====
-- The rows of `fiat_invoices` while an invoice is created.
use ppv_stream_rust.Prelude.{
  String, ◌≡◌, refl, inl, inr, Bool, true, false, Option, none, some, List, [], ◌∷◌, arith, eq_iff,
  str_refl, ◌==◌, Bool-cases, Option-cases, if◌then◌else◌,
}
use ppv_stream_rust.Fiat.{
  ProviderInvoice, FiatInvoice, Desk, Query, find_invoice, update_invoice, delete_invoices,
  paid_pairs, with_invoices,
}
use ppv_stream_rust.Fiat.Create.{
  insert_invoice, non_empty, referred, store_ref, provided, store_provider, delete_invoice,
}

-- The pairs that `user_has_view_access` reads are those of the paid invoices.
abbrev pub IsSynced : Desk → Type 0
IsSynced s = s.main.paid_fiat ≡ paid_pairs s.invoices

with_invoices-same : (s : Desk) → IsSynced s → with_invoices s.invoices s ≡ s
with_invoices-same s h = rw (← h) refl

update_invoice-fresh :
    (f : FiatInvoice → FiatInvoice) (uid : String) (is : List FiatInvoice)
    → find_invoice uid is ≡ none
    → update_invoice f uid is ≡ is
unfolding find_invoice update_invoice
update_invoice-fresh f uid [] h = refl
update_invoice-fresh f uid (i ∷ is) h = elim (Bool-cases (i.invoice_uid == uid)) [
  | inl hit ↦ absurd (ground arith)
  | inr miss ↦ rw (miss, update_invoice-fresh f uid is (ground arith)) refl
]

delete_invoices-fresh :
    (uid : String) (is : List FiatInvoice)
    → find_invoice uid is ≡ none
    → delete_invoices uid is ≡ is
unfolding find_invoice delete_invoices
delete_invoices-fresh uid [] h = refl
delete_invoices-fresh uid (i ∷ is) h = elim (Bool-cases (i.invoice_uid == uid)) [
  | inl hit ↦ absurd (ground arith)
  | inr miss ↦ rw (miss, delete_invoices-fresh uid is (ground arith)) refl
]

pub insert_invoice-some :
    (fails : Query → Bool) (i : FiatInvoice) (s : Desk) {s1 : Desk}
    → insert_invoice fails i s ≡ some s1
    → (find_invoice i.invoice_uid s.invoices ≡ none) × (s1 ≡ with_invoices (i ∷ s.invoices) s)
unfolding insert_invoice
insert_invoice-some fails i s h = elim (Option-cases (find_invoice i.invoice_uid s.invoices)) [
  | inl fresh ↦ (fresh, ground arith)
  | inr (j, taken) ↦ absurd (ground arith)
]

-- The new row, with the affiliate's name where it was stored.
abbrev pub ref_row : (Query → Bool) → Option String → FiatInvoice → FiatInvoice
ref_row fails ref i = elim (non_empty ref) [
  | none ↦ i
  | some name ↦ if fails Query.set_ref then i else referred name i
]

pub store_ref-rows :
    (fails : Query → Bool) (ref : Option String) (i : FiatInvoice) (s : Desk)
    → find_invoice i.invoice_uid s.invoices ≡ none
    → store_ref fails i.invoice_uid ref (with_invoices (i ∷ s.invoices) s)
      ≡ with_invoices (ref_row fails ref i ∷ s.invoices) s
unfolding store_ref update_invoice
store_ref-rows fails ref i s fresh = elim (Option-cases (non_empty ref)) [
  | inl alone ↦ ground (arith, alone)
  | inr (name, given) ↦ elim (Bool-cases (fails Query.set_ref)) [
    | inl lost ↦ ground (arith, given, lost)
    | inr wrote ↦
        let rest = update_invoice-fresh (referred name) i.invoice_uid s.invoices fresh in
        ground (arith, given, wrote, rest, str_refl i.invoice_uid)
  ]
]

-- The rows after the row of a new invoice has been deleted again.
pub deleted-again :
    (fails : Query → Bool) (i : FiatInvoice) (uid : String) (s : Desk)
    → fails Query.delete_invoice ≡ false
    → IsSynced s
    → i.invoice_uid ≡ uid
    → find_invoice uid s.invoices ≡ none
    → delete_invoice fails uid (with_invoices (i ∷ s.invoices) s) ≡ s
unfolding delete_invoice delete_invoices
deleted-again fails i uid s deletes synced named fresh =
    let rest = delete_invoices-fresh uid s.invoices fresh in
    let hit : (i.invoice_uid == uid) ≡ true = ground (arith, eq_iff i.invoice_uid uid) in
    rw (deletes, hit, rest) (with_invoices-same s synced)

-- The row when the provider's references have been stored.
abbrev pub final_row : (Query → Bool) → String → ProviderInvoice → FiatInvoice → FiatInvoice
final_row fails uid v i = if fails Query.store_provider then i else provided uid v i

pub provided-row :
    (fails : Query → Bool) (i : FiatInvoice) (uid : String) (v : ProviderInvoice) (s : Desk)
    → i.invoice_uid ≡ uid
    → find_invoice uid (store_provider fails uid v (with_invoices (i ∷ s.invoices) s)).invoices
      ≡ some (final_row fails uid v i)
unfolding store_provider find_invoice update_invoice
provided-row fails i uid v s named = ground (arith, eq_iff i.invoice_uid uid)
