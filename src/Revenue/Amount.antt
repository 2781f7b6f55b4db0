-- ===== src/Revenue/Amount.antt =====
-- The size of a share.
use ppv_stream_rust.Prelude.{
  ℕ, ◌*◌, ◌/◌, ◌≤◌, ◌<◌, ◌^◌, ◌≡◌, arith, ap, ◌||◌, true, Bool-cases, inl, inr, leb,
}
use ppv_stream_rust.Prelude.Int.{pos, quot, leb_ℤ}
use ppv_stream_rust.Prelude.Word.{wrap64_of_FitsI64}
use ppv_stream_rust.Prelude.Fraction.{*ℤ-pos}
use ppv_stream_rust.Shares.{calculate_share_cents}

times-le : (n a b : ℕ) → a ≤ b → n * a ≤ n * b
times-le n a b h = grind arith

zero-product : (n bp : ℕ) → (leb_ℤ (pos bp) (pos 0) || leb_ℤ (pos n) (pos 0)) ≡ true → n * bp ≡ 0
zero-product n bp h = elim (Bool-cases (leb n 0)) [
  | inl e ↦ let z : n ≡ 0 = ground arith in rw z (omega arith)
  | inr e ↦ let z : bp ≡ 0 = ground arith in rw z (omega arith)
]

-- For a gross amount and basis points whose product fits an i64, the share is the product divided by
-- 10000 and rounded down; at up to 5000 basis points twice the share is at most the gross amount.
pub calculate_share_cents_floor :
    (n bp : ℕ)
    → n * bp < 2 ^ 63
    → (calculate_share_cents (pos n) (pos bp) ≡ pos (n * bp / 10000))
      × (bp ≤ 5000 → 2 * (n * bp / 10000) ≤ n)
unfolding calculate_share_cents quot
calculate_share_cents_floor n bp h = (
  elim (Bool-cases (leb_ℤ (pos bp) (pos 0) || leb_ℤ (pos n) (pos 0))) [
    | inl none' ↦ ground (arith, zero-product n bp)
    | inr some' ↦ rw some' (
        rw (*ℤ-pos n bp)
          (ap (λ z. quot z 10000) (wrap64_of_FitsI64 (pos (n * bp)) (h, omega arith))))
  ],
  λ k. omega (arith, times-le n bp 5000 k),
)
