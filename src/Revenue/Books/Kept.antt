-- ===== src/Revenue/Books/Kept.antt =====
-- The books and the operations that create, credit and review shares.
use ppv_stream_rust.Prelude.{
  ℕ, ◌+◌, ◌≤◌, String, ◌≡◌, refl, ◌⊎◌, inl, inr, Bool, false, Option, none, some, List, [], ◌∷◌,
  arith, ◌==◌, eq_iff, nat_eq, Option-cases, All, ◌∙◌, sym,
}
use Prim.Native.String
use ppv_stream_rust.Prelude.Int.{ℤ}
use ppv_stream_rust.Prelude.Attempt.{done, Attempt-cases}
use ppv_stream_rust.Revenue.{
  Due, skip, broke, mark_reversed, share_due, add_share, write_share, process_revenue_share,
}
use ppv_stream_rust.Shares.{
  Share, ShareStatus, Entry, RevenueStore, Query, find_share, with_share, has_share,
  find_pending_share, record_ledger_entry,
}
use ppv_stream_rust.Revenue.Books.{
  count_credits, count_reversals, IsNumbered, IsNumbered-le, IsKeyed, IsSettledOnce, IsBooked,
  no_share_above, Recorded, record_ledger_entry-done, credit_once, AreKnown-cons, Recorded-AreKnown,
  AreKnown, AreKnown-mono,
}

-- A share that was added, unless its invoice had one.
record Added (t t' : RevenueStore) : Type 0 where
  share : Share
  id : share.id ≡ t.next_id
  status : share.status ≡ ShareStatus.pending
  same_entries : t'.entries ≡ t.entries
  next_id : t'.next_id ≡ t.next_id + 1
  shares :
      (t'.shares ≡ t.shares)
      ⊎ ((find_share share.invoice_id share.invoice_type t.shares ≡ none)
          × (t'.shares ≡ share ∷ t.shares))

add_share-done :
    (fails : Query → Bool) (invoice kind : String) (referral : Option ℕ) (gross : ℤ) (d : Due)
    (t : RevenueStore) {t' : RevenueStore}
    → add_share fails invoice kind referral gross d t ≡ done t'
    → Added t t'
unfolding add_share with_share
add_share-done fails invoice kind referral gross d t h = record {
  share = record {
    id = t.next_id;
    invoice_id = invoice;
    invoice_type = kind;
    referral_id = referral;
    referring_domain = d.domain;
    gross_cents = gross;
    share_basis_points = d.basis_points;
    share_cents = d.cents;
    status = ShareStatus.pending;
  };
  id = refl;
  status = refl;
  same_entries = ground arith;
  next_id = ground arith;
  shares = elim (Option-cases (find_share invoice kind t.shares)) [
    | inl new ↦ inr (new, ground arith)
    | inr (x, old) ↦ inl (ground arith)
  ];
}

Added-IsBooked : (t t' : RevenueStore) → Added t t' → IsBooked t → IsBooked t'
Added-IsBooked t t' a h =
    let fresh = λ (i : ℕ) (p : t'.next_id ≤ i). h.fresh i (omega (arith, a.next_id)) in
    let zero_above = h.fresh t.next_id (omega arith) in
    let same_once : All (IsSettledOnce t'.entries) t.shares = rw (a.same_entries) h.once in
    elim a.shares [
      | inl same ↦ record {
        numbered =
            rw same
              (IsNumbered-le t.next_id t'.next_id t.shares (omega (arith, a.next_id)) h.numbered);
        keyed = rw same h.keyed;
        once = rw (same, a.same_entries) h.once;
        fresh = λ i p. rw (a.same_entries) (fresh i p);
        known = rw (same, a.same_entries) h.known;
      }
      | inr (new, more) ↦ record {
        numbered = rw more (omega (arith, a.next_id, a.id), rw (a.id) h.numbered);
        keyed = rw more (new, h.keyed);
        once = rw more (
          rw (a.id, a.status, a.same_entries)
              (omega (arith, zero_above), omega (arith, zero_above)),
          same_once,
        );
        fresh = λ i p. rw (a.same_entries) (fresh i p);
        known = rw (more, a.same_entries) (AreKnown-cons a.share t.shares t.entries h.known);
      }
    ]

-- An entry for a share that is there leaves the numbers above free.
pub fresh_above :
    (i : ℕ) (kind : String) (t t' : RevenueStore)
    → Recorded i kind t t'
    → IsBooked t
    → (j : ℕ) → t'.next_id ≤ j
    → (count_credits j t'.entries ≡ 0) × (count_reversals j t'.entries ≡ 0)
unfolding count_credits count_reversals
fresh_above i kind t t' r h j p =
    let zero = h.fresh j (omega (arith, r.next_id)) in
    let apart : nat_eq r.entry.revenue_share_id j ≡ false = ground (
      arith,
      r.known,
      r.of,
      no_share_above t.next_id j t.shares (omega (arith, r.next_id)) h.numbered,
    ) in
    rw (r.entries) (rw apart (omega (arith, zero), omega (arith, zero)))

first_credit :
    (e : Entry) (es : List Entry) (x : Share)
    → e.revenue_share_id ≡ x.id
    → e.entry_type ≡ "credit"
    → (count_credits x.id es ≡ 0) × (count_reversals x.id es ≡ 0)
    → IsSettledOnce (e ∷ es) x
unfolding count_credits count_reversals
first_credit e es x p q zero = ground (arith, eq_iff e.entry_type "credit")

-- The credit of the share that was just added; without a new share it is refused.
credited-IsBooked :
    (t t' t'' : RevenueStore)
    → Added t t'
    → IsBooked t'
    → IsBooked t
    → Recorded t.next_id "credit" t' t''
    → IsBooked t''
unfolding count_credits count_reversals
credited-IsBooked t t' t'' a b h r =
    let zero = h.fresh t.next_id (omega arith) in
    elim a.shares [
      | inl same ↦
          let absent = no_share_above t.next_id t.next_id t.shares (omega arith) h.numbered in
          absurd (ground (arith, r.known, absent))
      | inr (new, more) ↦
          let same_once : All (IsSettledOnce t'.entries) t.shares = rw (a.same_entries) h.once in
          let later : All (IsSettledOnce (r.entry ∷ t'.entries)) t.shares =
            credit_once r.entry t'.entries t.next_id t.shares r.of h.numbered same_once in
          let first =
            first_credit r.entry t'.entries a.share (r.of ∙ sym a.id) r.typed
              (rw (a.same_entries, a.id) zero) in
          record {
            numbered = rw (r.same_shares) (
                IsNumbered-le t'.next_id t''.next_id t'.shares (omega (arith, r.next_id))
                  b.numbered);
            keyed = rw (r.same_shares) b.keyed;
            once = rw (r.same_shares, r.entries, more) (first, later);
            fresh = fresh_above t.next_id "credit" t' t'' r b;
            known = Recorded-AreKnown t.next_id "credit" t' t'' r b.known;
          }
    ]

pub write_share-IsBooked :
    (fails : Query → Bool) (invoice kind : String) (referral : Option ℕ) (gross : ℤ) (d : Due)
    (t : RevenueStore)
    → IsBooked t
    → IsBooked (write_share fails invoice kind referral gross d t).1
unfolding write_share count_credits count_reversals has_share
write_share-IsBooked fails invoice kind referral gross d t h =
    elim (Attempt-cases (add_share fails invoice kind referral gross d t)) [
      | inl (e, q) ↦ rw (q, write_share) h
      | inr (t', q) ↦
          let a = add_share-done fails invoice kind referral gross d t q in
          let b = Added-IsBooked t t' a h in
          let text = some (String.◌++◌ "traffic referral from " d.domain) in
          rw (q, write_share)
            (elim (Attempt-cases (record_ledger_entry fails t.next_id "credit" d.cents text t')) [
              | inl (e, p) ↦ rw p b
              | inr (t'', p) ↦
                  let r = record_ledger_entry-done fails t.next_id "credit" d.cents text t' p in
                  rw p (credited-IsBooked t t' t'' a b h r)
            ])
    ]

pub process_revenue_share-IsBooked :
    (fails : Query → Bool) (invoice kind : String) (referral : Option ℕ) (domain : Option String)
    (gross : ℤ) (t : RevenueStore)
    → IsBooked t
    → IsBooked (process_revenue_share fails invoice kind referral domain gross t).1
unfolding process_revenue_share
process_revenue_share-IsBooked fails invoice kind referral domain gross t h =
    elim (Attempt-cases (share_due fails invoice kind domain gross t)) [
      | inl (skip, q) ↦ rw (q, process_revenue_share) h
      | inl (broke e, q) ↦ rw (q, process_revenue_share) h
      | inr (d, q) ↦
          rw (q, process_revenue_share)
            (write_share-IsBooked fails invoice kind referral gross d t h)
    ]

-- A share that is marked keeps its number and its invoice.
pub mark_reversed-IsNumbered :
    (i n : ℕ) (xs : List Share) → IsNumbered n xs → IsNumbered n (mark_reversed i xs)
unfolding mark_reversed
mark_reversed-IsNumbered i n [] h = tt
mark_reversed-IsNumbered i n (x ∷ xs) h = ground (arith, mark_reversed-IsNumbered i x.id xs h.1)

find_share-mark_reversed :
    (i : ℕ) (invoice kind : String) (xs : List Share)
    → find_share invoice kind xs ≡ none
    → find_share invoice kind (mark_reversed i xs) ≡ none
unfolding mark_reversed find_share
find_share-mark_reversed i invoice kind [] h = refl
find_share-mark_reversed i invoice kind (x ∷ xs) h =
    ground (arith, find_share-mark_reversed i invoice kind xs)

pub mark_reversed-IsKeyed : (i : ℕ) (xs : List Share) → IsKeyed xs → IsKeyed (mark_reversed i xs)
unfolding mark_reversed
mark_reversed-IsKeyed i [] h = tt
mark_reversed-IsKeyed i (x ∷ xs) h = ground (
  arith,
  find_share-mark_reversed i x.invoice_id x.invoice_type xs h.0,
  mark_reversed-IsKeyed i xs h.1,
)

has_share-mark_reversed :
    (i j : ℕ) (xs : List Share) → has_share j (mark_reversed i xs) ≡ has_share j xs
unfolding mark_reversed has_share
has_share-mark_reversed i j [] = refl
has_share-mark_reversed i j (x ∷ xs) = ground (arith, has_share-mark_reversed i j xs)

pub mark_reversed-AreKnown :
    (i : ℕ) (xs : List Share) (es : List Entry) → AreKnown xs es → AreKnown (mark_reversed i xs) es
mark_reversed-AreKnown i xs es h =
    AreKnown-mono xs (mark_reversed i xs) es (λ j p. has_share-mark_reversed i j xs ∙ p) h

pub mark_reversed_once :
    (i : ℕ) (es : List Entry) (xs : List Share)
    → All (IsSettledOnce es) xs
    → All (IsSettledOnce es) (mark_reversed i xs)
unfolding mark_reversed
mark_reversed_once i es [] h = tt
mark_reversed_once i es (x ∷ xs) h = ground (arith, mark_reversed_once i es xs h.1)

-- The reversal of a share that had none.
pub reversal_once :
    (e : Entry) (es : List Entry) (i : ℕ) (xs : List Share)
    → e.revenue_share_id ≡ i
    → (e.entry_type == "credit") ≡ false
    → count_reversals i es ≡ 0
    → All (IsSettledOnce es) xs
    → All (IsSettledOnce (e ∷ es)) (mark_reversed i xs)
unfolding mark_reversed count_credits count_reversals
reversal_once e es i [] p q z h = tt
reversal_once e es i (x ∷ xs) p q z h = ground (arith, reversal_once e es i xs p q z h.1)

pub pending_unreversed :
    (invoice kind : String) (es : List Entry) (xs : List Share) {x : Share}
    → find_pending_share invoice kind xs ≡ some x
    → All (IsSettledOnce es) xs
    → count_reversals x.id es ≡ 0
unfolding find_pending_share
pending_unreversed invoice kind es [] h a = cc
pending_unreversed invoice kind es (y ∷ xs) {x} h a =
    ground (arith, pending_unreversed invoice kind es xs {x = x})
