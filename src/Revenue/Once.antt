-- ===== src/Revenue/Once.antt =====
-- A payment that is reported again.
use ppv_stream_rust.Prelude.{
  ℕ, String, ◌≡◌, inl, inr, Bool, true, Option, none, some, List, arith, if◌then◌else◌, is_some,
  eq_iff,
}
use Prim.Native.String
use ppv_stream_rust.Prelude.Int.{ℤ}
use ppv_stream_rust.Prelude.Attempt.{done, stopped, Attempt-cases}
use ppv_stream_rust.Revenue.{
  skip, broke, Due, share_due, add_share, write_share, process_revenue_share,
}
use ppv_stream_rust.Shares.{
  Share, ShareStatus, RevenueStore, Query, query_failed, find_share, with_share,
  record_ledger_entry,
}

-- What an entry does to the tables: nothing to the shares.
pub record_ledger_entry_shares :
    (fails : Query → Bool) (i : ℕ) (kind : String) (amount : ℤ) (text : Option String)
    (t : RevenueStore) {t' : RevenueStore}
    → record_ledger_entry fails i kind amount text t ≡ done t'
    → t'.shares ≡ t.shares
unfolding record_ledger_entry
record_ledger_entry_shares fails i kind amount text t h = ground arith

find_share-with_share :
    (x : Share) (xs : List Share)
    → is_some (find_share x.invoice_id x.invoice_type (with_share x xs)) ≡ true
unfolding with_share find_share
find_share-with_share x xs =
    ground (arith, eq_iff x.invoice_id x.invoice_id, eq_iff x.invoice_type x.invoice_type)

module _ (fails : Query → Bool) (invoice kind : String) (referral : Option ℕ) (gross : ℤ) where
  add_share_found :
      (d : Due) (t : RevenueStore) {t' : RevenueStore}
      → add_share fails invoice kind referral gross d t ≡ done t'
      → is_some (find_share invoice kind t'.shares) ≡ true
  unfolding add_share
  add_share_found d t h =
      let found =
        find_share-with_share
          (record {
            id = t.next_id;
            invoice_id = invoice;
            invoice_type = kind;
            referral_id = referral;
            referring_domain = d.domain;
            gross_cents = gross;
            share_basis_points = d.basis_points;
            share_cents = d.cents;
            status = ShareStatus.pending;
          })
          t.shares in
      ground arith

  write_share_found :
      (d : Due) (t : RevenueStore) {cents : Option ℤ}
      → (write_share fails invoice kind referral gross d t).0 ≡ done cents
      → is_some
          (find_share invoice kind (write_share fails invoice kind referral gross d t).1.shares)
        ≡ true
  unfolding write_share
  write_share_found d t h = elim (Attempt-cases (add_share fails invoice kind referral gross d t)) [
    | inl (e, q) ↦ absurd (ground arith)
    | inr (t', q) ↦
        let added = add_share_found d t q in
        let text = some (String.◌++◌ "traffic referral from " d.domain) in
        elim (Attempt-cases (record_ledger_entry fails t.next_id "credit" d.cents text t')) [
          | inl (e, p) ↦ absurd (ground arith)
          | inr (t'', p) ↦
              let same = record_ledger_entry_shares fails t.next_id "credit" d.cents text t' p in
              rw (q, write_share) (rw p (rw same added))
        ]
  ]

  process_found :
      (domain : Option String) (t : RevenueStore) {cents : ℤ}
      → (process_revenue_share fails invoice kind referral domain gross t).0 ≡ done (some cents)
      → is_some (
          find_share invoice kind
            (process_revenue_share fails invoice kind referral domain gross t).1.shares)
        ≡ true
  unfolding process_revenue_share
  process_found domain t h = elim (Attempt-cases (share_due fails invoice kind domain gross t)) [
    | inl (skip, q) ↦ absurd (ground arith)
    | inl (broke e, q) ↦ absurd (ground arith)
    | inr (d, q) ↦
        rw (q, process_revenue_share) (write_share_found d t (rw (q, process_revenue_share) at h))
  ]

known_share_skips :
    (fails : Query → Bool) (invoice kind : String) (referral : Option ℕ) (domain : Option String)
    (gross : ℤ) (t : RevenueStore)
    → is_some (find_share invoice kind t.shares) ≡ true
    → process_revenue_share fails invoice kind referral domain gross t ≡ (
        if fails Query.find_existing
        then (stopped (query_failed Query.find_existing), t)
        else (done none, t))
unfolding process_revenue_share share_due
known_share_skips fails invoice kind referral domain gross t h = ground arith

-- Once `process_revenue_share` has answered a share for an invoice, every later call for that invoice,
-- whatever referral, domain and amount it names and whatever statements fail, changes nothing: it
-- answers `Ok(None)`, or the error of its first query.
pub process_revenue_share_once :
    (fails again : Query → Bool) (invoice kind : String) (referral referral' : Option ℕ)
    (domain domain' : Option String) (gross gross' cents : ℤ) (t : RevenueStore)
    → (process_revenue_share fails invoice kind referral domain gross t).0 ≡ done (some cents)
    → let t' = (process_revenue_share fails invoice kind referral domain gross t).1 in
      process_revenue_share again invoice kind referral' domain' gross' t' ≡ (
        if again Query.find_existing
        then (stopped (query_failed Query.find_existing), t')
        else (done none, t'))
process_revenue_share_once fails again invoice kind referral referral' domain domain' gross gross'
      cents t h =
    known_share_skips again invoice kind referral' domain' gross' _
      (process_found fails invoice kind referral gross domain t h)
