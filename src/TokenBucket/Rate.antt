-- ===== src/TokenBucket/Rate.antt =====
-- The sustained rate: however requests are spread, what is granted is bounded by the burst and by
-- the time that has passed.
use build_affiliate.Common.{ℕ, ◌+◌, ◌-◌, ◌*◌, ◌≤◌, List, [], ◌∷◌, arith, max, All, if◌then◌else◌}
use build_affiliate.TokenBucket.{
  TokenBucketSpec, TokenBucketState, unit, full_bucket, refill, decide_refilled, consume,
}
use build_affiliate.TokenBucket.Refill.{mul_split}

-- Requests are pairs of a time and a cost. The state after them, and the units granted in all.
unfoldable pub serve : TokenBucketState → TokenBucketSpec → List (ℕ × ℕ) → TokenBucketState × ℕ
serve s spec [] = (s, 0)
serve s spec ((now, cost) ∷ rest) =
    let d = consume s spec now cost in
    let (s', granted) = serve d.state spec rest in
    (s', (if d.allowed then cost * unit else 0) + granted)

consume_pays :
    (s : TokenBucketState) (spec : TokenBucketSpec) (now cost : ℕ)
    → let d = consume s spec now cost in
      (s.last_refill_ms ≤ d.state.last_refill_ms)
      × ((if d.allowed then cost * unit else 0) + d.state.tokens
          ≤ s.tokens + (d.state.last_refill_ms - s.last_refill_ms) * spec.per_minute)
      × (d.state.last_refill_ms ≤ max s.last_refill_ms now)
unfolding consume refill decide_refilled
consume_pays s spec now cost = (ground arith, ground arith, ground arith)

serve_pays :
    (s : TokenBucketState) (spec : TokenBucketSpec) (requests : List (ℕ × ℕ))
    → let (s', granted) = serve s spec requests in
      (s.last_refill_ms ≤ s'.last_refill_ms)
      × (granted + s'.tokens ≤ s.tokens + (s'.last_refill_ms - s.last_refill_ms) * spec.per_minute)
unfolding serve
serve_pays s spec [] = (omega arith, omega arith)
serve_pays s spec ((now, cost) ∷ rest) =
    let d = consume s spec now cost in
    let (s', granted) = serve d.state spec rest in
    let head = consume_pays s spec now cost in
    let tail = serve_pays d.state spec rest in
    (
      omega arith,
      omega (
        arith,
        mul_split s.last_refill_ms d.state.last_refill_ms s'.last_refill_ms spec.per_minute head.0
            tail.0,
      ),
    )

serve_last :
    (s : TokenBucketState) (spec : TokenBucketSpec) (requests : List (ℕ × ℕ)) (deadline : ℕ)
    → s.last_refill_ms ≤ deadline
    → All (λ q. q.0 ≤ deadline) requests
    → (serve s spec requests).0.last_refill_ms ≤ deadline
unfolding serve
serve_last s spec [] deadline h a = h
serve_last s spec ((now, cost) ∷ rest) deadline h a =
    serve_last (consume s spec now cost).state spec rest deadline
      (omega (arith, (consume_pays s spec now cost).2, a.0)) a.1

-- From a full bucket at `start`, whatever is asked up to `deadline`, in whatever order the clock
-- runs: what is granted is at most the burst and `per_minute` units for each millisecond.
pub granted_bounded :
    (spec : TokenBucketSpec) (start deadline : ℕ) (requests : List (ℕ × ℕ))
    → start ≤ deadline
    → All (λ q. q.0 ≤ deadline) requests
    → (serve (full_bucket spec start) spec requests).1
      ≤ spec.capacity * unit + (deadline - start) * spec.per_minute
unfolding full_bucket
granted_bounded spec start deadline requests h a =
    let s = full_bucket spec start in
    let (s', granted) = serve s spec requests in
    let (grows, pays) = serve_pays s spec requests in
    let last = serve_last s spec requests deadline h a in
    omega (arith, mul_split start s'.last_refill_ms deadline spec.per_minute grows last)
