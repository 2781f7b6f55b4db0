-- ===== src/Commission/Amount.antt =====
-- The size of a commission.
use ppv_stream_rust.Prelude.{ℕ, ◌*◌, ◌/◌, ◌≤◌, ◌<◌, ◌^◌, ◌≡◌, arith}
use ppv_stream_rust.Prelude.Int.{pos, quot}
use ppv_stream_rust.Prelude.Word.{wrap64_of_FitsI64}
use ppv_stream_rust.Prelude.Fraction.{*ℤ-pos, mul-le_of_share}
use ppv_stream_rust.Commission.{commission_of}

-- For a price that fits an i64 and a percentage of at most 100, the commission is that percentage of
-- the price, rounded down.
pub commission_exact :
    (n pct : ℕ) → n < 2 ^ 63 → pct ≤ 100 → commission_of (pos n) (pos pct) ≡ pos (n * pct / 100)
unfolding commission_of quot
commission_exact n pct h k =
    let le = mul-le_of_share n pct 100 k in
    rw (*ℤ-pos n pct) (wrap64_of_FitsI64 (pos (n * pct / 100)) (omega (arith, le), omega arith))
