-- ===== src/TokenBucket.antt =====
-- packages/analytics/src/token-bucket.ts: the refill arithmetic of rate limiting, in exact numbers.
-- The source keeps tokens as a double and the rate as `perMinute / 60` tokens per second, so a
-- millisecond is worth `perMinute / 60000` of a token. Here tokens are counted in units of 1/60000
-- of a token (`unit`), where every quantity is a whole number: a millisecond adds `per_minute`
-- units. `Math.ceil(ms - 1e-9)` exists to absorb binary rounding; on exact values it is the ceiling.
pub mod Refill
pub mod Retry
pub mod Rate
mod Examples
use build_affiliate.Common.{ℕ, ◌+◌, ◌-◌, ◌*◌, ◌/◌, Bool, Option, min, leb, if◌then◌else◌}

abbrev pub unit : ℕ
unit = 60000

pub record TokenBucketSpec : Type 0 where
  pub capacity : ℕ  -- whole tokens
  pub per_minute : ℕ  -- refillPerSecond is per_minute / 60

pub record TokenBucketState : Type 0 where
  pub tokens : ℕ  -- in units
  pub last_refill_ms : ℕ

pub record TokenBucketDecision : Type 0 where
  pub allowed : Bool
  pub state : TokenBucketState
  pub remaining : ℕ  -- whole tokens
  pub retry_after_ms : ℕ
  pub reset_ms : ℕ

-- `ceilMs(msFor(units))`: the first whole millisecond by which that many units have come in.
abbrev pub ceil_ms_for : ℕ → ℕ → ℕ
ceil_ms_for units per_minute = (units + (per_minute - 1)) / per_minute

unfoldable pub bucket_spec : ℕ → ℕ → TokenBucketSpec
bucket_spec per_minute burst = record { capacity = burst; per_minute = per_minute }

unfoldable pub full_bucket : TokenBucketSpec → ℕ → TokenBucketState
full_bucket spec now_ms = record { tokens = spec.capacity * unit; last_refill_ms = now_ms }

unfoldable pub refill : TokenBucketState → TokenBucketSpec → ℕ → TokenBucketState
refill state spec now_ms = if leb now_ms state.last_refill_ms then state else record {
  tokens =
      min (spec.capacity * unit) (state.tokens + (now_ms - state.last_refill_ms) * spec.per_minute);
  last_refill_ms = now_ms;
}

-- The decision on a bucket that has been advanced; `cost` in whole tokens.
unfoldable pub decide_refilled : TokenBucketState → TokenBucketSpec → ℕ → TokenBucketDecision
decide_refilled refilled spec cost =
    let allowed = leb (cost * unit) refilled.tokens in
    let after =
      if allowed then record refilled { tokens = refilled.tokens - cost * unit } else refilled in
    record {
      allowed = allowed;
      state = after;
      remaining = after.tokens / unit;
      retry_after_ms =
          if allowed then 0 else ceil_ms_for (cost * unit - after.tokens) spec.per_minute;
      reset_ms = ceil_ms_for (spec.capacity * unit - after.tokens) spec.per_minute;
    }

unfoldable pub consume : TokenBucketState → TokenBucketSpec → ℕ → ℕ → TokenBucketDecision
consume state spec now_ms cost = decide_refilled (refill state spec now_ms) spec cost
