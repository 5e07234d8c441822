-- ===== src/Webhook/Backoff.antt =====
-- packages/analytics/src/backoff.ts. 32-bit integers are kept as numbers below 2^32: `| 0`, `>>> 0`,
-- `^` and `Math.imul` all work modulo 2^32, and only such values are shifted. `random01` returns the
-- numerator over 2^32; its product with the ceiling is far below 2^53, so the source's floor is exact.
pub mod Bounds
use Prim.Native.Nat.{bit_xor, bit_or}
use build_affiliate.Common.{
  ℕ, zero, suc, ◌+◌, ◌-◌, ◌*◌, ◌/◌, ◌%◌, ◌≤◌, ◌<◌, ◌≡◌, List, [], ◌∷◌, max, min, arith, ◌^◌,
}

abbrev pub webhook_max_attempts : ℕ
webhook_max_attempts = 6

abbrev pub webhook_backoff_base_ms : ℕ
webhook_backoff_base_ms = 1000

abbrev pub word : ℕ
word = 4294967296

-- `Math.imul`.
abbrev pub imul : ℕ → ℕ → ℕ
imul a b = a * b % word

unfoldable pub random01 : ℕ → ℕ
random01 seed =
    let t = (seed + 1831565813) % word in
    let u = imul (bit_xor t (t / 32768)) (bit_or t 1) in
    let v = bit_xor u ((u + imul (bit_xor u (u / 128)) (bit_or u 61)) % word) in
    bit_xor v (v / 16384) % word

unfoldable pub backoff_ceiling_ms : ℕ → ℕ → ℕ
backoff_ceiling_ms attempt base_ms = base_ms * 2 ^ (max 1 (min attempt webhook_max_attempts) - 1)

unfoldable pub next_delay_ms : ℕ → ℕ → ℕ → ℕ
next_delay_ms attempt seed base_ms =
    max 1 (random01 seed * backoff_ceiling_ms attempt base_ms / word)

-- The loop over the code units of the id.
unfoldable pub hash_units : ℕ → List ℕ → ℕ
hash_units hash [] = hash
hash_units hash (ch ∷ id) = hash_units (imul (bit_xor hash ch) 16777619) id

unfoldable pub seed_from : List ℕ → ℕ → ℕ
unfolding hash_units
seed_from id attempt = bit_xor (hash_units 2166136261 id) (imul (attempt + 1) 2654435761)
