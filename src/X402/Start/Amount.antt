-- ===== src/X402/Start/Amount.antt =====
-- The amount of tokens that `x402_start` asks for.
use Prim.Native.Nat.{min}
use native.Mathlib.Nat.{pow-le-pow_right}
use ppv_stream_rust.Prelude.{ℕ, ◌+◌, ◌-◌, ◌*◌, ◌/◌, ◌^◌, ◌≤◌, ◌<◌, ◌≡◌, arith}
use ppv_stream_rust.Prelude.Int.{pos}
use ppv_stream_rust.X402.Quote.{token_amount, unit_of}

unit_bound : (d : ℕ) → d ≤ 19 → 10 ^ d ≤ 10 ^ 19
unit_bound d h = pow-le-pow_right (omega arith) h

small_product : (n u : ℕ) → n < 2 ^ 63 → u ≤ 10 ^ 19 → n * u + 99 ≤ 2 ^ 128 - 1
small_product n u p q = grind arith

rounded_up :
    (m : ℕ)
    → m + 99 ≤ 2 ^ 128 - 1
    → (m ≤ 100 * (min (min m (2 ^ 128 - 1) + 99) (2 ^ 128 - 1) / 100))
      × (100 * (min (min m (2 ^ 128 - 1) + 99) (2 ^ 128 - 1) / 100) < m + 100)
rounded_up m h = (omega arith, omega arith)

-- For a price of at least one cent that an i64 holds, and a token of at most nineteen decimals: the
-- amount is the price in base units, rounded up to the next whole unit, with no saturation.
pub token_amount_ceil :
    (n d : ℕ)
    → 1 ≤ n
    → n < 2 ^ 63
    → d ≤ 19
    → (n * 10 ^ d ≤ 100 * token_amount (pos n) d)
      × (100 * token_amount (pos n) d < n * 10 ^ d + 100)
unfolding token_amount
token_amount_ceil n d least fits few =
    let small = unit_bound d few in
    let exact : unit_of d ≡ 10 ^ d = omega arith in
    let bound = rounded_up (n * 10 ^ d) (small_product n (10 ^ d) fits small) in
    rw exact (ground (arith, bound))
