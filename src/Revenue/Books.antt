-- ===== src/Revenue/Books.antt =====
-- The shares, and the ledger of their credits and reversals, as books that the operations write.
pub mod Kept
pub mod Runs
use ppv_stream_rust.Prelude.{
  ℕ, ◌+◌, ◌≤◌, ◌<◌, String, ◌≡◌, refl, ◌⊎◌, inl, inr, Bool, true, false, ◌&&◌, ◌||◌, not, Option,
  none, some, List, [], ◌∷◌, arith, if◌then◌else◌, is_some, ◌==◌, eq_iff, nat_eq, Option-cases,
  Bool-cases, All, All-mono, ap, ◌∙◌,
}
use Prim.Native.String
use ppv_stream_rust.Prelude.Int.{ℤ, pos}
use ppv_stream_rust.Prelude.Attempt.{Attempt, done, stopped, Attempt-cases}
use ppv_stream_rust.Revenue.{
  Due, Halt, skip, broke, mark_reversed, share_due, add_share, write_share, process_revenue_share,
  reverse_revenue_share,
}
use ppv_stream_rust.Shares.{
  Share, ShareStatus, pending, settled, reversed, Entry, RevenueStore, Query, is_of, find_share,
  with_share, has_share, is_pending, find_pending_share, record_ledger_entry,
}

abbrev pub is_credit : Entry → Bool
is_credit e = e.entry_type == "credit"

-- How many entries of share `i` are credits, and how many are not.
unfoldable pub count_credits : ℕ → List Entry → ℕ
count_credits i [] = 0
count_credits i (e ∷ es) =
    (if nat_eq e.revenue_share_id i && is_credit e then 1 else 0) + count_credits i es

unfoldable pub count_reversals : ℕ → List Entry → ℕ
count_reversals i [] = 0
count_reversals i (e ∷ es) =
    (if nat_eq e.revenue_share_id i && not (is_credit e) then 1 else 0) + count_reversals i es

abbrev pub most_reversals : ShareStatus → ℕ
most_reversals ShareStatus.reversed = 1
most_reversals _ = 0

abbrev pub IsNumbered : ℕ → List Share → Type 0
IsNumbered n [] = Unit
IsNumbered n (x ∷ xs) = (x.id < n) × IsNumbered x.id xs

abbrev pub IsKeyed : List Share → Type 0
IsKeyed [] = Unit
IsKeyed (x ∷ xs) = (find_share x.invoice_id x.invoice_type xs ≡ none) × IsKeyed xs

-- Every entry is of one of the shares.
abbrev pub AreKnown : List Share → List Entry → Type 0
AreKnown xs es = All (λ e. has_share e.revenue_share_id xs ≡ true) es

-- One share has at most one credit, and a reversal only once it is reversed, then at most one.
abbrev pub IsSettledOnce : List Entry → Share → Type 0
IsSettledOnce es x =
    (count_credits x.id es ≤ 1) × (count_reversals x.id es ≤ most_reversals x.status)

-- No invoice has two shares, every share is credited and reversed at most once, every entry is of a
-- share that is there, and the numbers from `next_id` on are free.
pub record IsBooked (t : RevenueStore) : Type 0 where
  pub numbered : IsNumbered t.next_id t.shares
  pub keyed : IsKeyed t.shares
  pub once : All (IsSettledOnce t.entries) t.shares
  pub fresh :
      (i : ℕ) → t.next_id ≤ i → (count_credits i t.entries ≡ 0) × (count_reversals i t.entries ≡ 0)
  pub known : AreKnown t.shares t.entries

pub IsNumbered-le : (m n : ℕ) (xs : List Share) → m ≤ n → IsNumbered m xs → IsNumbered n xs
IsNumbered-le m n [] h k = tt
IsNumbered-le m n (x ∷ xs) h k = (omega arith, k.1)

pub no_share_above : (n i : ℕ) (xs : List Share) → n ≤ i → IsNumbered n xs → has_share i xs ≡ false
unfolding has_share
no_share_above n i [] h k = refl
no_share_above n i (x ∷ xs) h k = ground (arith, no_share_above x.id i xs (omega arith) k.1)

-- An entry that was recorded: it is of a share that is there, and nothing else has changed.
pub record Recorded (i : ℕ) (kind : String) (t t' : RevenueStore) : Type 0 where
  pub entry : Entry
  pub of : entry.revenue_share_id ≡ i
  pub typed : entry.entry_type ≡ kind
  pub known : has_share i t.shares ≡ true
  pub same_shares : t'.shares ≡ t.shares
  pub entries : t'.entries ≡ entry ∷ t.entries
  pub next_id : t'.next_id ≡ t.next_id + 1

pub record_ledger_entry-done :
    (fails : Query → Bool) (i : ℕ) (kind : String) (amount : ℤ) (text : Option String)
    (t : RevenueStore) {t' : RevenueStore}
    → record_ledger_entry fails i kind amount text t ≡ done t'
    → Recorded i kind t t'
unfolding record_ledger_entry
record_ledger_entry-done fails i kind amount text t h = record {
  entry = record {
    id = t.next_id;
    revenue_share_id = i;
    entry_type = kind;
    amount_cents = amount;
    description = text;
  };
  of = refl;
  typed = refl;
  known = ground arith;
  same_shares = ground arith;
  entries = ground arith;
  next_id = ground arith;
}

pub AreKnown-mono :
    (xs ys : List Share) (es : List Entry)
    → ((i : ℕ) → has_share i xs ≡ true → has_share i ys ≡ true)
    → AreKnown xs es
    → AreKnown ys es
AreKnown-mono xs ys [] f h = tt
AreKnown-mono xs ys (e ∷ es) f h = (f e.revenue_share_id h.0, AreKnown-mono xs ys es f h.1)

-- Another share leaves the ones before it there.
pub AreKnown-cons :
    (x : Share) (xs : List Share) (es : List Entry) → AreKnown xs es → AreKnown (x ∷ xs) es
unfolding has_share
AreKnown-cons x xs es h = AreKnown-mono xs (x ∷ xs) es (λ i p. ground (arith, p)) h

-- The entry that was recorded is of a share that is there.
pub Recorded-AreKnown :
    (i : ℕ) (kind : String) (t t' : RevenueStore)
    → Recorded i kind t t'
    → AreKnown t.shares t.entries
    → AreKnown t'.shares t'.entries
Recorded-AreKnown i kind t t' r h =
    rw (r.same_shares, r.entries) (ap (λ n. has_share n t.shares) r.of ∙ r.known, h)

-- A credit of the newest share, which has none yet.
pub credit_once :
    (e : Entry) (es : List Entry) (n : ℕ) (xs : List Share)
    → e.revenue_share_id ≡ n
    → IsNumbered n xs
    → All (IsSettledOnce es) xs
    → All (IsSettledOnce (e ∷ es)) xs
unfolding count_credits count_reversals
credit_once e es n [] q k h = tt
credit_once e es n (x ∷ xs) q k h =
    (ground arith, credit_once e es n xs q (IsNumbered-le x.id n xs (omega arith) k.1) h.1)
