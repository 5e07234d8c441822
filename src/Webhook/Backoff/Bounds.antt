-- ===== src/Webhook/Backoff/Bounds.antt =====
-- The bounds of the jittered delay of backoff.ts.
use native.Mathlib.Nat.{mod-lt, div-le_of_le-mul}
use build_affiliate.Common.{ℕ, zero, suc, ◌-◌, ◌*◌, ◌/◌, ◌^◌, ◌≤◌, ◌<◌, max, min, arith}
use build_affiliate.Webhook.Backoff.{
  word, random01, backoff_ceiling_ms, next_delay_ms, webhook_max_attempts,
}

power_bounds : (k : ℕ) → k ≤ 5 → (1 ≤ 2 ^ k) × (2 ^ k ≤ 32)
power_bounds zero h = (omega arith, omega arith)
power_bounds (suc zero) h = (omega arith, omega arith)
power_bounds (suc (suc zero)) h = (omega arith, omega arith)
power_bounds (suc (suc (suc zero))) h = (omega arith, omega arith)
power_bounds (suc (suc (suc (suc zero)))) h = (omega arith, omega arith)
power_bounds (suc (suc (suc (suc (suc zero))))) h = (omega arith, omega arith)
power_bounds (suc (suc (suc (suc (suc (suc k)))))) h = absurd (omega arith)

random01_bound : (seed : ℕ) → random01 seed < word
unfolding random01
random01_bound seed = mod-lt _ {m = word} (omega arith)

mul_le : (a b c : ℕ) → a ≤ b → a * c ≤ b * c
mul_le a b c h = grind arith

share_le : (r c : ℕ) → r < word → r * c / word ≤ c
share_le r c h = div-le_of_le-mul word (mul_le r word c (omega arith))

ceiling_bounds :
    (attempt base_ms : ℕ)
    → (base_ms ≤ backoff_ceiling_ms attempt base_ms)
      × (backoff_ceiling_ms attempt base_ms ≤ base_ms * 32)
unfolding backoff_ceiling_ms
ceiling_bounds attempt base_ms =
    let (low, high) = power_bounds (max 1 (min attempt webhook_max_attempts) - 1) (omega arith) in
    (grind arith, grind arith)

-- The wait after a failed attempt is at least a millisecond and at most the ceiling of the attempt,
-- which lies between the base and 32 times the base, whatever the seed is.
next_delay_bounded :
    (attempt seed base_ms : ℕ)
    → 0 < base_ms
    → (1 ≤ next_delay_ms attempt seed base_ms)
      × (next_delay_ms attempt seed base_ms ≤ backoff_ceiling_ms attempt base_ms)
      × (base_ms ≤ backoff_ceiling_ms attempt base_ms)
      × (backoff_ceiling_ms attempt base_ms ≤ base_ms * 32)
unfolding next_delay_ms
next_delay_bounded attempt seed base_ms p =
    let (low, high) = ceiling_bounds attempt base_ms in
    let share =
      share_le (random01 seed) (backoff_ceiling_ms attempt base_ms) (random01_bound seed) in
    (omega arith, omega arith, low, high)
