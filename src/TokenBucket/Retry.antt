-- ===== src/TokenBucket/Retry.antt =====
-- What a refused client is told.
use build_affiliate.Common.{ℕ, ◌+◌, ◌-◌, ◌*◌, ◌≤◌, ◌<◌, ◌≡◌, ap, min, ◌∙◌, ◌↔◌, true, false, arith}
use build_affiliate.TokenBucket.{
  TokenBucketSpec, TokenBucketState, unit, refill, decide_refilled, consume, ceil_ms_for,
}
use build_affiliate.TokenBucket.Refill.{IsWithin, refill_tokens, refill-IsWithin}

-- The ceiling is the least number of milliseconds that brings the units in.
pub ceil_ms_for_least :
    (units rate ms : ℕ) → 0 < rate → (units ≤ ms * rate) ↔ (ceil_ms_for units rate ≤ ms)
ceil_ms_for_least units rate ms h = (grind arith, grind arith)

allowed_iff :
    (s : TokenBucketState) (spec : TokenBucketSpec) (now cost : ℕ)
    → ((consume s spec now cost).allowed ≡ true) ↔ (cost * unit ≤ (refill s spec now).tokens)
unfolding consume decide_refilled
allowed_iff s spec now cost = (ground arith, ground arith)

refused_keeps :
    (s : TokenBucketState) (spec : TokenBucketSpec) (now cost : ℕ)
    → (consume s spec now cost).allowed ≡ false
    → ((consume s spec now cost).state ≡ refill s spec now)
      × ((refill s spec now).tokens < cost * unit)
      × ((consume s spec now cost).retry_after_ms
          ≡ ceil_ms_for (cost * unit - (refill s spec now).tokens) spec.per_minute)
unfolding consume decide_refilled
refused_keeps s spec now cost h = (ground arith, ground arith, ground arith)

refilled_at :
    (s : TokenBucketState) (spec : TokenBucketSpec) (now : ℕ)
    → s.last_refill_ms ≤ now
    → (refill s spec now).last_refill_ms ≡ now
unfolding refill
refilled_at s spec now h = ground arith

-- A refused request of a cost that the bucket can hold may come back: sent at `later` to the
-- bucket that the refusal left, it is allowed exactly when `retry_after_ms` has passed. It
-- holds of a bucket within its capacity with a positive rate, and of times that do not go back.
pub retry_exact :
    (s : TokenBucketState) (spec : TokenBucketSpec) (now later cost : ℕ)
    → IsWithin spec s
    → 0 < spec.per_minute
    → cost ≤ spec.capacity
    → s.last_refill_ms ≤ now
    → now ≤ later
    → (consume s spec now cost).allowed ≡ false
    → ((consume (consume s spec now cost).state spec later cost).allowed ≡ true)
      ↔ (now + (consume s spec now cost).retry_after_ms ≤ later)
retry_exact s spec now later cost h r fits p q refused =
    let (kept, short, wait) = refused_keeps s spec now cost refused in
    let bucket = refill s spec now in
    let tokens = refill_tokens bucket spec later (refill-IsWithin s spec now h) in
    let stamp = refilled_at s spec now p in
    let gain =
      tokens
      ∙ ap (λ (t : ℕ). min (spec.capacity * unit) (bucket.tokens + (later - t) * spec.per_minute))
          stamp in
    let ask = allowed_iff bucket spec later cost in
    let least = ceil_ms_for_least (cost * unit - bucket.tokens) spec.per_minute (later - now) r in
    rw (kept, wait)
      (
        λ a. omega (arith, least.0 (omega (arith, gain, ask.0 a))),
        λ w. ask.1 (rw gain (omega (arith, least.1 (omega arith), fits))),
      )
