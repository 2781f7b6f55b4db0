-- ===== src/Prelude/Fraction.antt =====
-- Fractions of an amount: n * p / d.
use ppv_stream_rust.Prelude.{ℕ, ◌*◌, ◌≤◌, ◌≡◌, arith}
use ppv_stream_rust.Prelude.Int.{pos, ◌*ℤ◌}

pub *ℤ-pos : (n p : ℕ) → pos n *ℤ pos p ≡ pos (n * p)
unfolding ◌*ℤ◌
*ℤ-pos n p = ground arith

-- A fraction of at most one is at most the amount.
pub mul-le_of_share : (n p d : ℕ) → p ≤ d → n * p ≤ n * d
mul-le_of_share n p d h = grind arith
