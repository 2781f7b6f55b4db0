-- ===== src/Wallet/Payment/Split.antt =====
-- The creator's share of a price.
use Prim.Native.Nat.{min}
use ppv_stream_rust.Prelude.{ℕ, ◌*◌, ◌/◌, ◌≤◌, ◌<◌, ◌^◌, ◌-◌, ◌≡◌, arith}
use ppv_stream_rust.Prelude.Int.{pos, quot}
use ppv_stream_rust.Prelude.Word.{wrap64_of_FitsI64}
use ppv_stream_rust.Prelude.Fraction.{*ℤ-pos, mul-le_of_share}
use ppv_stream_rust.Wallet.Payment.{creator_cut_of}

-- On a price that fits an i64 and a split of at most 10000 basis points neither the saturation nor the
-- truncation shows: the share is the price times the basis points, divided by 10000 and rounded down.
pub creator_cut_exact :
    (n bp : ℕ) → n < 2 ^ 63 → bp ≤ 10000 → creator_cut_of (pos n) bp ≡ pos (n * bp / 10000)
unfolding creator_cut_of quot
creator_cut_exact n bp h k =
    let le = mul-le_of_share n bp 10000 k in
    let small : n * bp ≤ 2 ^ 127 - 1 = omega (arith, le) in
    let whole : min (n * bp) (2 ^ 127 - 1) ≡ n * bp = omega (arith, small) in
    rw (*ℤ-pos n bp, whole)
      (wrap64_of_FitsI64 (pos (n * bp / 10000)) (omega (arith, le), omega arith))
