-- ===== src/TokenBucket/Refill.antt =====
-- Lazy refilling: what a bucket holds does not depend on how often it was looked at.
use native.Mathlib.Nat.{zero-mul, add-mul}
use build_affiliate.Common.{ℕ, ◌+◌, ◌-◌, ◌*◌, ◌≤◌, ◌≡◌, arith, min}
use build_affiliate.TokenBucket.{
  TokenBucketSpec, TokenBucketState, unit, full_bucket, refill, decide_refilled, consume,
}

-- The bucket never holds more than its capacity.
abbrev pub IsWithin : TokenBucketSpec → TokenBucketState → Type 0
IsWithin spec s = s.tokens ≤ spec.capacity * unit

pub refill-IsWithin :
    (s : TokenBucketState) (spec : TokenBucketSpec) (now : ℕ)
    → IsWithin spec s
    → IsWithin spec (refill s spec now)
unfolding refill
refill-IsWithin s spec now h = ground arith

-- A new bucket is within its capacity, a request to a bucket within its capacity leaves it so, and what
-- the request reports as remaining is at most the capacity.
consume-IsWithin :
    (s : TokenBucketState) (spec : TokenBucketSpec) (now cost : ℕ)
    → IsWithin spec s
    → IsWithin spec (full_bucket spec now)
      × IsWithin spec (consume s spec now cost).state
      × ((consume s spec now cost).remaining ≤ spec.capacity)
unfolding consume decide_refilled full_bucket
consume-IsWithin s spec now cost h =
    let within = refill-IsWithin s spec now h in (ground arith, ground arith, ground arith)

elapsed_none : (a b r : ℕ) → b ≤ a → (b - a) * r ≡ 0
elapsed_none a b r h = rw (zero_of h) (zero-mul r)
  where
    zero_of : b ≤ a → b - a ≡ 0
    zero_of h = omega arith

pub mul_split : (a b c r : ℕ) → a ≤ b → b ≤ c → (c - a) * r ≡ (b - a) * r + (c - b) * r
mul_split a b c r h k = rw whole (add-mul (b - a) (c - b) r)
  where
    whole : c - a ≡ (b - a) + (c - b)
    whole = omega arith

-- The value of a refill as one formula, also for a clock that goes backwards.
pub refill_tokens :
    (s : TokenBucketState) (spec : TokenBucketSpec) (now : ℕ)
    → IsWithin spec s
    → (refill s spec now).tokens
      ≡ min (spec.capacity * unit) (s.tokens + (now - s.last_refill_ms) * spec.per_minute)
unfolding refill
refill_tokens s spec now h = ground (arith, elapsed_none s.last_refill_ms now spec.per_minute)

-- Touching a bucket within its capacity in between changes nothing: if the bucket was last refilled
-- by `t`, and `t` is not after `u`, a refill at `t` and then at `u` is one at `u`.
refill-refill :
    (s : TokenBucketState) (spec : TokenBucketSpec) (t u : ℕ)
    → IsWithin spec s
    → s.last_refill_ms ≤ t
    → t ≤ u
    → refill (refill s spec t) spec u ≡ refill s spec u
unfolding refill
refill-refill s spec t u h p q = ground (arith, mul_split s.last_refill_ms t u spec.per_minute p q)
