-- ===== src/X402/Confirm/Progress.antt =====
-- An invoice as an account: what `x402_confirm` may do to it.
use ppv_stream_rust.Prelude.{
  ℕ, ◌+◌, ◌<◌, ◌≤◌, String, ◌≡◌, refl, inl, inr, Bool, false, Option, none, some, List, [], ◌∷◌,
  arith, ltb, Bool-cases, or_else, nat_eq, ◌∙◌,
}
use ppv_stream_rust.Prelude.Attempt.{Attempt-cases}
use ppv_stream_rust.Transaction.{Faults}
use ppv_stream_rust.X402.{
  InvoiceStatus, is_paid, Invoice, Books, Query, find_invoice, update_invoice,
}
use ppv_stream_rust.X402.Chain.{World}
use ppv_stream_rust.X402.Confirm.{required_of, marked, verified, settle_invoice, x402_confirm}
use ppv_stream_rust.X402.Confirm.Proof.{verified-IsPaidOnChain}
use ppv_stream_rust.X402.Confirm.Rows.{
  find_invoice-mark, settle_invoice-invoices, status_for, with_row,
}

-- The account of an invoice: its status, and how much has been paid in all.
pub record Account : Type 0 where
  pub status : InvoiceStatus
  pub total : ℕ

-- A payment that falls short, and one that suffices. A paid account stays as it is.
pub data Step (required : ℕ) : Account → Account → Type 0 where
  short :
      (a : Account) (amount : ℕ)
      → is_paid a.status ≡ false
      → amount < required
      → Step required a (record { status = InvoiceStatus.underpaid; total = a.total + amount })
  full :
      (a : Account) (amount : ℕ)
      → is_paid a.status ≡ false
      → required ≤ amount
      → Step required a (record { status = InvoiceStatus.paid; total = a.total + amount })

pub data Steps (required : ℕ) (a : Account) : Account → Type 0 where
  here : Steps required a a
  next : {b c : Account} → Steps required a b → Step required b c → Steps required a c

Steps-trans :
    {required : ℕ} {a b c : Account} → Steps required a b → Steps required b c → Steps required a c
Steps-trans r here = r
Steps-trans r (next q st) = next (Steps-trans r q) st

abbrev pub account_of : Invoice → Account
account_of i = record { status = i.status; total = or_else i.paid_amount_wei 0 }

-- Rows with one `id` have one `invoice_uid`.
abbrev pub IsKeyed : List Invoice → Type 0
IsKeyed is =
    (u v : String) (a b : Invoice)
    → find_invoice u is ≡ some a
    → find_invoice v is ≡ some b
    → a.id ≡ b.id
    → u ≡ v

pub record Request : Type 0 where
  pub world : World
  pub fails : Query → Bool
  pub later : Faults
  pub uid : String
  pub tx : String

unfoldable pub confirm_all : List Request → Books → Books
confirm_all [] s = s
confirm_all (r ∷ rs) s = confirm_all rs (x402_confirm r.world r.fails r.later r.uid r.tx s).1

with_row-inv :
    (status : InvoiceStatus) (tx : String) (amount id : ℕ) (o : Option Invoice) {b : Invoice}
    → with_row (marked status tx amount) id o ≡ some b
    → (a : Invoice) × (o ≡ some a) × (a.id ≡ b.id)
unfolding marked
with_row-inv status tx amount id none h = cc
with_row-inv status tx amount id (some a) h = (a, refl, ground arith)

marked-IsKeyed :
    (status : InvoiceStatus) (tx : String) (amount id : ℕ) (is : List Invoice)
    → IsKeyed is
    → IsKeyed (update_invoice (marked status tx amount) id is)
marked-IsKeyed status tx amount id is keyed u v a b p q same =
    let (a', pa, ia) =
      with_row-inv status tx amount id (find_invoice u is)
        (rw (find_invoice-mark u status tx amount id is) at p) in
    let (b', pb, ib) =
      with_row-inv status tx amount id (find_invoice v is)
        (rw (find_invoice-mark v status tx amount id is) at q) in
    keyed u v a' b' pa pb (ground arith)

-- What a payment for a row does to its account.
mark-Steps :
    (i : Invoice) (tx : String) (amount : ℕ)
    → is_paid i.status ≡ false
    → Steps (required_of i) (account_of i) (account_of (marked (status_for i amount) tx amount i))
unfolding marked
mark-Steps i tx amount unpaid = elim (Bool-cases (ltb amount (required_of i))) [
  | inl less ↦ rw less (next here (Step.short (account_of i) amount unpaid (ground arith)))
  | inr enough ↦ rw enough (next here (Step.full (account_of i) amount unpaid (ground arith)))
]

-- The row of `uid` later, and how its account has come there.
pub record Advanced (uid : String) (i : Invoice) (s : Books) : Type 0 where
  pub keyed : IsKeyed s.invoices
  pub row : Invoice
  pub listed : find_invoice uid s.invoices ≡ some row
  pub same_required : required_of row ≡ required_of i
  pub steps : Steps (required_of i) (account_of i) (account_of row)

unmoved :
    (uid : String) (i : Invoice) (s s' : Books)
    → IsKeyed s.invoices
    → find_invoice uid s.invoices ≡ some i
    → s'.invoices ≡ s.invoices
    → Advanced uid i s'
unmoved uid i s s' keyed listed same = record {
  keyed = rw same keyed;
  row = i;
  listed = rw same listed;
  same_required = refl;
  steps = here;
}

written_steps :
    (uid uid' tx : String) (i j : Invoice) (amount : ℕ) (s s' : Books)
    → IsKeyed s.invoices
    → find_invoice uid s.invoices ≡ some i
    → find_invoice uid' s.invoices ≡ some j
    → is_paid j.status ≡ false
    → s'.invoices ≡ update_invoice (marked (status_for j amount) tx amount) j.id s.invoices
    → Advanced uid i s'
written_steps uid uid' tx i j amount s s' keyed listed found unpaid wrote =
    let kept = marked-IsKeyed (status_for j amount) tx amount j.id s.invoices keyed in
    let look = find_invoice-mark uid (status_for j amount) tx amount j.id s.invoices in
    elim (Bool-cases (nat_eq i.id j.id)) [
      | inr other ↦ record {
        keyed = rw wrote kept;
        row = i;
        listed = rw wrote (ground (arith, look));
        same_required = refl;
        steps = here;
      }
      | inl hit ↦
          let one : uid ≡ uid' = keyed uid uid' i j listed found (ground arith) in
          let same : i ≡ j = ground arith in
          record {
            keyed = rw wrote kept;
            row = marked (status_for j amount) tx amount j;
            listed = rw wrote (ground (arith, look));
            same_required = rw same (unfold marked in refl);
            steps = rw same (mark-Steps j tx amount unpaid);
          }
    ]

confirm_steps :
    (r : Request) (uid : String) (i : Invoice) (s : Books)
    → IsKeyed s.invoices
    → find_invoice uid s.invoices ≡ some i
    → Advanced uid i (x402_confirm r.world r.fails r.later r.uid r.tx s).1
unfolding x402_confirm
confirm_steps r uid i s keyed listed =
    elim (Attempt-cases (verified r.world r.fails r.uid r.tx s)) [
      | inl (q, e) ↦ rw (e, x402_confirm) (unmoved uid i s s keyed listed refl)
      | inr ((j, amount), e) ↦
          let (found, unpaid, shown) = verified-IsPaidOnChain r.world r.fails r.uid r.tx s e in
          let s' = (settle_invoice r.fails r.later r.uid r.tx j amount s).1 in
          rw (e, x402_confirm)
            (elim (settle_invoice-invoices r.fails r.later r.uid r.tx j amount s) [
              | inl same ↦ unmoved uid i s s' keyed listed same
              | inr wrote ↦
                  written_steps uid r.uid r.tx i j amount s s' keyed listed found unpaid wrote
            ])
    ]

-- For an invoice that is listed, in a table where rows with one `id` have one `invoice_uid`: whatever
-- confirmations are requested, of which invoices and transactions, and whatever statements fail, if each
-- confirmation has ended when the next starts, the account of the invoice moves by the steps above
-- only, so that a paid invoice keeps its status and its amount, and an invoice becomes paid by one
-- payment of what it requires.
pub confirm_all-Steps :
    (rs : List Request) (uid : String) (i : Invoice) (s : Books)
    → IsKeyed s.invoices
    → find_invoice uid s.invoices ≡ some i
    → Advanced uid i (confirm_all rs s)
unfolding confirm_all
confirm_all-Steps [] uid i s keyed listed = unmoved uid i s s keyed listed refl
confirm_all-Steps (r ∷ rs) uid i s keyed listed =
    let first = confirm_steps r uid i s keyed listed in
    let s' = (x402_confirm r.world r.fails r.later r.uid r.tx s).1 in
    let later = confirm_all-Steps rs uid first.row s' first.keyed first.listed in
    record {
      keyed = later.keyed;
      row = later.row;
      listed = later.listed;
      same_required = later.same_required ∙ first.same_required;
      steps = Steps-trans first.steps (rw (← first.same_required) later.steps);
    }
