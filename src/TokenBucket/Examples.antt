-- ===== src/TokenBucket/Examples.antt =====
-- The theorems on the bucket at concrete buckets: 60 requests a minute with a burst of 2.
use build_affiliate.Common.{◌≡◌, refl, ◌+◌, ◌-◌, ◌*◌, ◌≤◌, ◌↔◌, true, [], ◌∷◌, arith}
use build_affiliate.TokenBucket.{
  TokenBucketSpec, TokenBucketState, unit, full_bucket, refill, decide_refilled, consume,
}
use build_affiliate.TokenBucket.Retry.{retry_exact}
use build_affiliate.TokenBucket.Rate.{serve, granted_bounded}

abbrev paced : TokenBucketSpec
paced = record { capacity = 2; per_minute = 60 }

abbrev low_bucket : TokenBucketState
low_bucket = record { tokens = 30000; last_refill_ms = 1000 }

retry_exact_example :
    ((consume (consume low_bucket paced 1001 1).state paced 1500 1).allowed ≡ true)
    ↔ (1001 + (consume low_bucket paced 1001 1).retry_after_ms ≤ 1500)
unfolding consume refill decide_refilled
retry_exact_example =
    retry_exact low_bucket paced 1001 1500 1 (omega arith) (omega arith) (omega arith) (omega arith)
      (omega arith) refl

granted_bounded_example :
    (serve (full_bucket paced 1000) paced ((1000, 1) ∷ (1500, 1) ∷ (1200, 1) ∷ (2000, 1) ∷ [])).1
    ≤ paced.capacity * unit + (2000 - 1000) * paced.per_minute
granted_bounded_example =
    granted_bounded paced 1000 2000 ((1000, 1) ∷ (1500, 1) ∷ (1200, 1) ∷ (2000, 1) ∷ [])
      (omega arith) (omega arith, (omega arith, (omega arith, (omega arith, tt))))
