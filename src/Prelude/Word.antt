-- ===== src/Prelude/Word.antt =====
-- Rust's `i64`: a value is an integer, and arithmetic wraps round modulo 2 ^ 64.
use ppv_stream_rust.Prelude.{
  suc, ◌+◌, ◌-◌, ◌%◌, ◌^◌, ◌<◌, ◌≡◌, Bool, ◌&&◌, arith, leb, ltb, if◌then◌else◌,
}
use ppv_stream_rust.Prelude.Int.{ℤ, pos, negsuc, pos_part, neg_part, ◌+ℤ◌, ◌-ℤ◌}

-- The integer that the low 64 bits of `z` stand for.
unfoldable pub wrap64 : ℤ → ℤ
wrap64 z =
    let u = (pos_part z + (2 ^ 64 - neg_part z % 2 ^ 64)) % 2 ^ 64 in
    if ltb u (2 ^ 63) then pos u else negsuc (2 ^ 64 - 1 - u)

-- -2 ^ 63 <= z < 2 ^ 63
abbrev pub FitsI64 : ℤ → Type 0
FitsI64 z = (pos_part z < 2 ^ 63) × (neg_part z < suc (2 ^ 63))

abbrev pub fits_i64 : ℤ → Bool
fits_i64 z = ltb (pos_part z) (2 ^ 63) && leb (neg_part z) (2 ^ 63)

pub wrap64_of_FitsI64 : (z : ℤ) → FitsI64 z → wrap64 z ≡ z
unfolding wrap64
wrap64_of_FitsI64 z h = ground arith

-- `a + b` and `a - b` on `i64` in a release build.
unfoldable pub add64 : ℤ → ℤ → ℤ
add64 a b = wrap64 (a +ℤ b)

unfoldable pub sub64 : ℤ → ℤ → ℤ
sub64 a b = wrap64 (a -ℤ b)

-- Where the exact result fits, the machine computes it.
pub add64_exact : (a b : ℤ) → FitsI64 (a +ℤ b) → add64 a b ≡ a +ℤ b
unfolding add64
add64_exact a b h = wrap64_of_FitsI64 (a +ℤ b) h

pub sub64_exact : (a b : ℤ) → FitsI64 (a -ℤ b) → sub64 a b ≡ a -ℤ b
unfolding sub64
sub64_exact a b h = wrap64_of_FitsI64 (a -ℤ b) h
