-- ===== src/Delivery/Retry.antt =====
-- The delays between attempts.
use native.Mathlib.Nat.{one-le-pow, pow-le-pow_right}
use ppv_stream_rust.Prelude.{ℕ, ◌^◌, ◌≤◌, ◌≡◌, arith}
use ppv_stream_rust.Delivery.{compute_retry_delay_seconds}

pow_pos : (a : ℕ) → 1 ≤ 2 ^ a
pow_pos a = one-le-pow a 2 (omega arith)

pow_mono : (a b : ℕ) → a ≤ b → 2 ^ a ≤ 2 ^ b
pow_mono a b h = pow-le-pow_right {n = 2} (omega arith) h

-- A delay is at least one second and at most an hour, it is 2 ^ attempt seconds up to the eleventh
-- attempt and an hour from the twelfth on, and it never falls from one attempt to a later one.
pub compute_retry_delay_seconds_lem :
    (a b : ℕ)
    → (1 ≤ compute_retry_delay_seconds a)
      × (compute_retry_delay_seconds a ≤ 3600)
      × (a ≤ 11 → compute_retry_delay_seconds a ≡ 2 ^ a)
      × (12 ≤ a → compute_retry_delay_seconds a ≡ 3600)
      × (a ≤ b → compute_retry_delay_seconds a ≤ compute_retry_delay_seconds b)
unfolding compute_retry_delay_seconds
compute_retry_delay_seconds_lem a b = (
  omega (arith, pow_pos a),
  omega arith,
  λ h. omega (arith, pow_mono a 11 h),
  λ h. omega (arith, pow_mono 12 a h),
  λ h. omega (arith, pow_mono a b h),
)
