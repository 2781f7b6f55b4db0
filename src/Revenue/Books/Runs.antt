-- ===== src/Revenue/Books/Runs.antt =====
-- The books, reversals and sequences of operations.
use ppv_stream_rust.Prelude.{
  ℕ, String, ◌≡◌, refl, inl, inr, Bool, true, false, ◌||◌, Option, none, some, List, [], ◌∷◌, arith,
  ◌==◌, eq_iff, Option-cases, Bool-cases, All,
}
use ppv_stream_rust.Prelude.Int.{ℤ}
use ppv_stream_rust.Prelude.Attempt.{Attempt-cases}
use ppv_stream_rust.Revenue.{
  Due, mark_reversed, write_share, process_revenue_share, reverse_revenue_share, set_share_policy,
}
use ppv_stream_rust.Shares.{
  Share, RevenueStore, Query, find_pending_share, record_ledger_entry, validate_basis_points,
}
use ppv_stream_rust.Revenue.Books.{
  IsSettledOnce, IsBooked, IsNumbered-le, Recorded, record_ledger_entry-done, Recorded-AreKnown,
}
use ppv_stream_rust.Revenue.Books.Kept.{
  write_share-IsBooked, process_revenue_share-IsBooked, mark_reversed-IsNumbered,
  mark_reversed-IsKeyed, mark_reversed_once, reversal_once, pending_unreversed, fresh_above,
  mark_reversed-AreKnown,
}

marked-IsBooked :
    (i : ℕ) (t : RevenueStore)
    → IsBooked t
    → IsBooked (record t { shares = mark_reversed i t.shares })
marked-IsBooked i t h = record {
  numbered = mark_reversed-IsNumbered i t.next_id t.shares h.numbered;
  keyed = mark_reversed-IsKeyed i t.shares h.keyed;
  once = mark_reversed_once i t.entries t.shares h.once;
  fresh = h.fresh;
  known = mark_reversed-AreKnown i t.shares t.entries h.known;
}

reversed-IsBooked :
    (invoice kind entry_type : String) (t t' : RevenueStore) (x : Share)
    → (entry_type == "credit") ≡ false
    → find_pending_share invoice kind t.shares ≡ some x
    → Recorded x.id entry_type (record t { shares = mark_reversed x.id t.shares }) t'
    → IsBooked t
    → IsBooked t'
reversed-IsBooked invoice kind entry_type t t' x debit found r h =
    let marked = marked-IsBooked x.id t h in
    let none_yet = pending_unreversed invoice kind t.entries t.shares found h.once in
    let kind_of : (r.entry.entry_type == "credit") ≡ false = rw (r.typed) debit in
    let once : All (IsSettledOnce (r.entry ∷ t.entries)) (mark_reversed x.id t.shares) =
      reversal_once r.entry t.entries x.id t.shares r.of kind_of none_yet h.once in
    record {
      numbered = rw (r.same_shares) (
          IsNumbered-le t.next_id t'.next_id (mark_reversed x.id t.shares)
            (omega (arith, r.next_id)) marked.numbered);
      keyed = rw (r.same_shares) marked.keyed;
      once = rw (r.same_shares, r.entries) once;
      fresh =
          fresh_above x.id entry_type (record t { shares = mark_reversed x.id t.shares }) t' r
            marked;
      known =
          Recorded-AreKnown x.id entry_type (record t { shares = mark_reversed x.id t.shares }) t' r
            marked.known;
    }

reversal_is_no_credit :
    (s : String) → ((s == "refund" || s == "chargeback") ≡ true) → (s == "credit") ≡ false
reversal_is_no_credit s h = elim (Bool-cases (s == "refund")) [
  | inl a ↦ rw ((eq_iff s "refund").0 a) refl
  | inr a ↦ rw ((eq_iff s "chargeback").0 (ground arith)) refl
]

reverse_revenue_share-IsBooked :
    (fails : Query → Bool) (invoice kind entry_type : String) (t : RevenueStore)
    → IsBooked t
    → IsBooked (reverse_revenue_share fails invoice kind entry_type t).1
unfolding reverse_revenue_share
reverse_revenue_share-IsBooked fails invoice kind entry_type t h =
    elim (Bool-cases (entry_type == "refund" || entry_type == "chargeback")) [
      | inr bad ↦ rw (bad, reverse_revenue_share) h
      | inl good ↦ elim (Bool-cases (fails Query.find_pending)) [
        | inl lost ↦ rw (good, lost, reverse_revenue_share) h
        | inr asked ↦ elim (Option-cases (find_pending_share invoice kind t.shares)) [
          | inl none' ↦ rw (good, asked, none', reverse_revenue_share) h
          | inr (x, found) ↦ elim (Bool-cases (fails Query.update_share)) [
            | inl lost ↦ rw (good, asked, found, lost, reverse_revenue_share) h
            | inr kept ↦
                let t' = record t { shares = mark_reversed x.id t.shares } in
                let debit = reversal_is_no_credit entry_type good in
                elim (Attempt-cases
                  (record_ledger_entry fails x.id entry_type x.share_cents none t')) [
                    | inl (e, q) ↦
                        rw (good, asked, found, kept, q, reverse_revenue_share)
                          (marked-IsBooked x.id t h)
                    | inr (t'', q) ↦
                        let r =
                          record_ledger_entry-done fails x.id entry_type x.share_cents none t' q in
                        rw (good, asked, found, kept, q, reverse_revenue_share)
                          (reversed-IsBooked invoice kind entry_type t t'' x debit found r h)
                  ]
          ]
        ]
      ]
    ]

set_share_policy-IsBooked :
    (fails : Query → Bool) (domain : String) (bp : ℤ) (by : String) (t : RevenueStore)
    → IsBooked t
    → IsBooked (set_share_policy fails domain bp by t).1
unfolding set_share_policy
set_share_policy-IsBooked fails domain bp by t h = elim (Attempt-cases (validate_basis_points bp)) [
  | inl (e, q) ↦ rw (q, set_share_policy) h
  | inr (u, q) ↦
      rw (q, set_share_policy)
        (elim (Bool-cases (fails Query.upsert_policy)) [
          | inl lost ↦ rw lost h
          | inr kept ↦ rw kept (record {
            numbered = h.numbered;
            keyed = h.keyed;
            once = h.once;
            fresh = h.fresh;
            known = h.known;
          })
        ])
]

-- One operation, with the statements of it that fail. `written` is the second part of a
-- `process_revenue_share` whose checks another operation has overtaken.
pub data Act : Type 0 where
  processed : (Query → Bool) → String → String → Option ℕ → Option String → ℤ → Act
  written : (Query → Bool) → String → String → Option ℕ → ℤ → Due → Act
  undone : (Query → Bool) → String → String → String → Act
  agreed : (Query → Bool) → String → ℤ → String → Act

unfoldable pub act : Act → RevenueStore → RevenueStore
act (Act.processed f i k r d g) t = (process_revenue_share f i k r d g t).1
act (Act.written f i k r g d) t = (write_share f i k r g d t).1
act (Act.undone f i k e) t = (reverse_revenue_share f i k e t).1
act (Act.agreed f d bp by) t = (set_share_policy f d bp by t).1

unfoldable pub acts : List Act → RevenueStore → RevenueStore
acts [] t = t
acts (a ∷ as') t = acts as' (act a t)

act-IsBooked : (a : Act) (t : RevenueStore) → IsBooked t → IsBooked (act a t)
unfolding act
act-IsBooked (Act.processed f i k r d g) t h = process_revenue_share-IsBooked f i k r d g t h
act-IsBooked (Act.written f i k r g d) t h = write_share-IsBooked f i k r g d t h
act-IsBooked (Act.undone f i k e) t h = reverse_revenue_share-IsBooked f i k e t h
act-IsBooked (Act.agreed f d bp by) t h = set_share_policy-IsBooked f d bp by t h

-- Any sequence of payments, reversals and changes of policy keeps the books, whatever statements fail,
-- where a payment may write what it found on the tables of an earlier moment, and each reversal has
-- ended when the next operation starts: no invoice has two shares, no share is credited twice or
-- reversed twice, none that is not marked so has a reversal in the ledger, and every entry of the
-- ledger is of a share in the table.
pub acts-IsBooked : (as' : List Act) (t : RevenueStore) → IsBooked t → IsBooked (acts as' t)
unfolding acts
acts-IsBooked [] t h = h
acts-IsBooked (a ∷ as') t h = acts-IsBooked as' (act a t) (act-IsBooked a t h)
