-- ===== src/Wallet/Settle/Books.antt =====
-- The invariant of the tables, and money that moves by `settled`.
use ppv_stream_rust.Prelude.{
  ℕ, String, Bool, false, ap, ◌≡◌, refl, ◌≢◌, true, ◌+◌, ◌==◌, eq_iff, arith, if◌then◌else◌,
  is_some, ◌∙◌,
}
use ppv_stream_rust.Prelude.Int.{ℤ, pos, ◌+ℤ◌, ◌-ℤ◌, ◌≤ℤ◌, ◌<ℤ◌, int_laws}
use ppv_stream_rust.Tables.{Store, NewTxn, find_user, balance_of, set_balance, row_of}
use ppv_stream_rust.Tables.Users.{balance_of-set_balance, is_some-find_user-set_balance}
use ppv_stream_rust.Tables.Ledger.{signed_amount, effect, ledger, AreOwned-kept}
use ppv_stream_rust.Tables.Total.{total, IsKeyed, total-set_balance, set_balance-IsKeyed}
use ppv_stream_rust.Tables.Nonneg.{set_balance-IsNonneg}
use ppv_stream_rust.Tables.Sound.{IsSound}
use ppv_stream_rust.Wallet.Settle.{settled}
use ppv_stream_rust.Wallet.Settle.Exact.{still_user}

module _ (payer : String) (payer_new : ℤ) (payee : String) (payee_new : ℤ) (out in' : NewTxn)
    (s : Store) where
  -- The two writes, as one lookup sees them.
  pub balance_of-settled :
      (j : String)
      → is_some (find_user payer s.users) ≡ true
      → is_some (find_user payee s.users) ≡ true
      → balance_of (settled payer payer_new payee payee_new out in' s).users j
        ≡ (if payee == j then payee_new else if payer == j then payer_new else balance_of s.users j)
  unfolding settled
  balance_of-settled j hp hq = ground (
    arith,
    balance_of-set_balance payee j payee_new (set_balance payer payer_new s.users),
    balance_of-set_balance payer j payer_new s.users,
    is_some-find_user-set_balance payer payee payer_new s.users,
  )

  -- The sum of all balances moves by what the two writes change.
  pub total-settled :
      payer ≢ payee
      → IsKeyed s.users
      → is_some (find_user payer s.users) ≡ true
      → is_some (find_user payee s.users) ≡ true
      → total (settled payer payer_new payee payee_new out in' s).users
          +ℤ balance_of s.users payer
          +ℤ balance_of s.users payee
        ≡ total s.users +ℤ payer_new +ℤ payee_new
  unfolding settled
  total-settled ne keyed hp hq =
      let us' = set_balance payer payer_new s.users in
      let first = total-set_balance payer payer_new s.users keyed hp in
      let second =
        total-set_balance payee payee_new us' (set_balance-IsKeyed payer payer_new s.users keyed)
          (is_some-find_user-set_balance payer payee payer_new s.users ∙ hq) in
      let same : balance_of us' payee ≡ balance_of s.users payee =
        ground
          (arith, balance_of-set_balance payer payee payer_new s.users hp, eq_iff payer payee) in
      grind (int_laws, first, second, same)

-- What a new row does to a balance.
effect-row_of :
    (j : String) (i : ℕ) (n : NewTxn)
    → effect j (row_of i n)
      ≡ (if n.user_id == j then signed_amount n.txn_type n.status n.amount_cents else pos 0)
unfolding effect
effect-row_of j i n = refl

-- One user's balance and the rows of one payment: payee, payer or neither.
balances_agree :
    (q p : Bool) (p_new q_new bal a b : ℤ)
    → ((q ≡ true) → p ≡ false)
    → ((q ≡ true) → q_new ≡ bal +ℤ b)
    → ((p ≡ true) → p_new ≡ bal -ℤ a)
    → (if q then q_new else if p then p_new else bal)
      ≡ (if q then b else pos 0) +ℤ ((if p then pos 0 -ℤ a else pos 0) +ℤ bal)
balances_agree true true p_new q_new bal a b ne hq hp = cc (ne refl)
balances_agree true false p_new q_new bal a b ne hq hp = rw (hq refl) (omega int_laws)
balances_agree false true p_new q_new bal a b ne hq hp = rw (hp refl) (omega int_laws)
balances_agree false false p_new q_new bal a b ne hq hp = omega int_laws

-- The rows and the writes of one payment agree: `payer` loses what `out` carries, `payee` gains what
-- `in'` carries, and neither balance falls below zero.
pub record IsPayment (payer : String) (payer_new : ℤ) (payee : String) (payee_new : ℤ)
    (out in' : NewTxn) (s : Store) : Type 0 where
  pub distinct : payer ≢ payee
  pub payer_known : is_some (find_user payer s.users) ≡ true
  pub payee_known : is_some (find_user payee s.users) ≡ true
  pub out_user : out.user_id ≡ payer
  pub in_user : in'.user_id ≡ payee
  pub out_sign : signed_amount out.txn_type out.status out.amount_cents ≡ pos 0 -ℤ out.amount_cents
  pub in_sign : signed_amount in'.txn_type in'.status in'.amount_cents ≡ in'.amount_cents
  pub debited : payer_new ≡ balance_of s.users payer -ℤ out.amount_cents
  pub credited : payee_new ≡ balance_of s.users payee +ℤ in'.amount_cents
  pub out_least : pos 0 <ℤ out.amount_cents
  pub in_least : pos 0 <ℤ in'.amount_cents
  pub covered : pos 0 ≤ℤ payer_new
  pub gained : pos 0 ≤ℤ payee_new

module _ (payer : String) (payer_new : ℤ) (payee : String) (payee_new : ℤ) (out in' : NewTxn)
    (s : Store) (h : IsSound s) (p : IsPayment payer payer_new payee payee_new out in' s) where
  ledger-settled :
      (j : String)
      → ledger j (settled payer payer_new payee payee_new out in' s).txns
        ≡ (if payee == j then in'.amount_cents else pos 0)
          +ℤ ((if payer == j then pos 0 -ℤ out.amount_cents else pos 0) +ℤ balance_of s.users j)
  unfolding settled ledger
  ledger-settled j = cc (
    effect-row_of j s.next_txn out,
    effect-row_of j (s.next_txn + 1) in',
    h.reconciled j,
    p.out_user,
    p.in_user,
    p.out_sign,
    p.in_sign,
  )

  reconciled-settled :
      (j : String)
      → balance_of (settled payer payer_new payee payee_new out in' s).users j
        ≡ ledger j (settled payer payer_new payee payee_new out in' s).txns
  reconciled-settled j =
      rw
        (
          balance_of-settled payer payer_new payee payee_new out in' s j p.payer_known
              p.payee_known,
          ledger-settled j,
        )
        (balances_agree (payee == j) (payer == j) payer_new payee_new (balance_of s.users j)
          out.amount_cents in'.amount_cents
          (ground (arith, eq_iff payer j, eq_iff payee j, p.distinct))
          (λ e.
            p.credited ∙ ap (λ k. balance_of s.users k +ℤ in'.amount_cents) ((eq_iff payee j).0 e))
          (λ e.
            p.debited ∙ ap (λ k. balance_of s.users k -ℤ out.amount_cents) ((eq_iff payer j).0 e)))

  pub settled-IsSound : IsSound (settled payer payer_new payee payee_new out in' s)
  unfolding settled
  settled-IsSound = record {
    keyed =
        set_balance-IsKeyed payee payee_new (set_balance payer payer_new s.users)
          (set_balance-IsKeyed payer payer_new s.users h.keyed);
    numbered = (omega arith, (omega arith, h.numbered));
    nonneg =
        set_balance-IsNonneg payee payee_new (set_balance payer payer_new s.users) p.gained
          (set_balance-IsNonneg payer payer_new s.users p.covered h.nonneg);
    positive = (p.in_least, (p.out_least, h.positive));
    owned = (
      rw (p.in_user) (still_user payer payer_new payee payee_new payee s.users ∙ p.payee_known),
      (
        rw (p.out_user) (still_user payer payer_new payee payee_new payer s.users ∙ p.payer_known),
        AreOwned-kept s.users _ s.txns (λ j. still_user payer payer_new payee payee_new j s.users)
            h.owned,
      ),
    );
    reconciled = reconciled-settled;
  }
