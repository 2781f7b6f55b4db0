-- ===== src/Wallet/Settle/Pays.antt =====
-- A payment between two users, on tables that meet the invariant: the machine arithmetic, the two
-- balances and the tables after it.
use ppv_stream_rust.Prelude.{String, ◌≡◌, ◌≢◌, true, arith, if◌then◌else◌, is_some, ◌==◌, eq_iff}
use ppv_stream_rust.Prelude.Int.{ℤ, pos, ◌≤ℤ◌, ◌+ℤ◌, ◌-ℤ◌, int_laws}
use ppv_stream_rust.Prelude.Word.{add64, sub64, add64_exact, sub64_exact}
use ppv_stream_rust.Tables.{Store, NewTxn, find_user, balance_of}
use ppv_stream_rust.Tables.Ledger.{signed_amount}
use ppv_stream_rust.Tables.Total.{total}
use ppv_stream_rust.Tables.Nonneg.{balance_nonneg, balance-le-total, pair-le-total}
use ppv_stream_rust.Tables.Sound.{IsSound, IsSound-kept, HasRoom}
use ppv_stream_rust.Wallet.Settle.{settled}
use ppv_stream_rust.Wallet.Settle.Exact.{still_user}
use ppv_stream_rust.Wallet.Settle.Books.{
  IsPayment, balance_of-settled, total-settled, settled-IsSound,
}

-- `a` has left `payer` and `b` has come to `payee`; no other balance has changed.
pub record Paid (payer payee : String) (a b : ℤ) (s s' : Store) : Type 0 where
  pub paid_out : balance_of s'.users payer ≡ balance_of s.users payer -ℤ a
  pub paid_in : balance_of s'.users payee ≡ balance_of s.users payee +ℤ b
  pub others : (j : String) → j ≢ payer → j ≢ payee → balance_of s'.users j ≡ balance_of s.users j
  pub same_people : (j : String) → is_some (find_user j s'.users) ≡ is_some (find_user j s.users)
  pub total_moves : total s'.users +ℤ a ≡ total s.users +ℤ b
  pub sound : IsSound s'

-- What the handlers have checked when they write: `out` is a covered debit of `payer`, and `in'` a
-- credit of `payee` of no more.
pub record IsDeal (payer payee : String) (out in' : NewTxn) (s : Store) : Type 0 where
  pub sound : IsSound s
  pub room : HasRoom s
  pub distinct : payer ≢ payee
  pub payer_known : is_some (find_user payer s.users) ≡ true
  pub payee_known : is_some (find_user payee s.users) ≡ true
  pub out_user : out.user_id ≡ payer
  pub in_user : in'.user_id ≡ payee
  pub out_sign : signed_amount out.txn_type out.status out.amount_cents ≡ pos 0 -ℤ out.amount_cents
  pub in_sign : signed_amount in'.txn_type in'.status in'.amount_cents ≡ in'.amount_cents
  pub least : pos 1 ≤ℤ in'.amount_cents
  pub share : in'.amount_cents ≤ℤ out.amount_cents
  pub cover : out.amount_cents ≤ℤ balance_of s.users payer

module _ (payer payee : String) (out in' : NewTxn) (s : Store)
    (d : IsDeal payer payee out in' s) where
  abbrev payer_new : ℤ
  payer_new = sub64 (balance_of s.users payer) out.amount_cents

  abbrev payee_new : ℤ
  payee_new = add64 (balance_of s.users payee) in'.amount_cents

  pub payer_exact : payer_new ≡ balance_of s.users payer -ℤ out.amount_cents
  payer_exact = sub64_exact _ _ (
      grind (
        int_laws,
        balance-le-total payer s.users d.sound.nonneg,
        d.room,
        d.cover,
        d.share,
        d.least,
      ))

  pub payee_exact : payee_new ≡ balance_of s.users payee +ℤ in'.amount_cents
  payee_exact = add64_exact _ _ (
      grind (
        int_laws,
        pair-le-total payer payee s.users d.distinct d.sound.nonneg,
        balance_nonneg payee s.users d.sound.nonneg,
        d.room,
        d.cover,
        d.share,
        d.least,
      ))

  deal-IsPayment : IsPayment payer payer_new payee payee_new out in' s
  deal-IsPayment = record {
    distinct = d.distinct;
    payer_known = d.payer_known;
    payee_known = d.payee_known;
    out_user = d.out_user;
    in_user = d.in_user;
    out_sign = d.out_sign;
    in_sign = d.in_sign;
    debited = payer_exact;
    credited = payee_exact;
    out_least = omega (arith, d.least, d.share);
    in_least = omega (arith, d.least);
    covered = rw payer_exact (omega (int_laws, d.cover));
    gained =
        rw payee_exact (omega (int_laws, balance_nonneg payee s.users d.sound.nonneg, d.least));
  }

  abbrev after : Store
  after = settled payer payer_new payee payee_new out in' s

  after-balance :
      (j : String)
      → balance_of after.users j
        ≡ (if payee == j then payee_new else if payer == j then payer_new else balance_of s.users j)
  after-balance j =
      balance_of-settled payer payer_new payee payee_new out in' s j d.payer_known d.payee_known

  pub deal-Paid : Paid payer payee out.amount_cents in'.amount_cents s (
      settled payer
        (sub64 (balance_of s.users payer) out.amount_cents)
        payee
        (add64 (balance_of s.users payee) in'.amount_cents)
        out
        in'
        s)
  deal-Paid = record {
    paid_out = ground (
      arith,
      after-balance payer,
      payer_exact,
      eq_iff payee payer,
      eq_iff payer payer,
      d.distinct,
    );
    paid_in = ground (arith, after-balance payee, payee_exact, eq_iff payee payee);
    others = λ j nu nr. ground (arith, after-balance j, eq_iff payee j, eq_iff payer j);
    same_people = λ j. unfold settled in still_user payer payer_new payee payee_new j s.users;
    total_moves = grind (
      int_laws,
      total-settled payer payer_new payee payee_new out in' s d.distinct d.sound.keyed d.payer_known
          d.payee_known,
      payer_exact,
      payee_exact,
    );
    sound = settled-IsSound payer payer_new payee payee_new out in' s d.sound deal-IsPayment;
  }

-- Only users, rows and the sequence matter: what a handler writes besides keeps the payment.
pub Paid-kept :
    (payer payee : String) (a b : ℤ) {s t : Store} (t' : Store)
    → t'.users ≡ t.users
    → t'.txns ≡ t.txns
    → t'.next_txn ≡ t.next_txn
    → Paid payer payee a b s t
    → Paid payer payee a b s t'
Paid-kept payer payee a b t' hu ht hn p = record {
  paid_out = rw hu p.paid_out;
  paid_in = rw hu p.paid_in;
  others = λ j nu nr. rw hu (p.others j nu nr);
  same_people = λ j. rw hu (p.same_people j);
  total_moves = rw hu p.total_moves;
  sound = IsSound-kept t' hu ht hn p.sound;
}
