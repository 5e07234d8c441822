-- ===== src/Breaker.antt =====
-- packages/analytics/src/circuit-breaker.ts: the circuit breaker of one webhook endpoint. Times are
-- epoch milliseconds. `elapsed < cooldownMs` is a comparison of a signed difference, written here
-- without subtraction as `now < openedAt + cooldownMs`.
pub mod Wellformed
pub mod Admission
mod Examples
use build_affiliate.Common.{ℕ, ◌+◌, Bool, true, false, Option, none, some, ltb, leb, if◌then◌else◌}

pub data BreakerState : Type 0 where
  closed opened half_open : BreakerState

abbrev pub breaker_failure_threshold : ℕ
breaker_failure_threshold = 5

abbrev pub breaker_cooldown_ms : ℕ
breaker_cooldown_ms = 60000

pub record BreakerSnapshot : Type 0 where
  pub state : BreakerState
  pub consecutive_failures : ℕ
  pub opened_at : Option ℕ

abbrev pub closed_breaker : BreakerSnapshot
closed_breaker = record { state = closed; consecutive_failures = 0; opened_at = none }

pub record BreakerDecision : Type 0 where
  pub allow : Bool
  pub next : BreakerSnapshot
  pub retry_at : Option ℕ

-- The `??` operator.
abbrev pub or_else : Option ℕ → ℕ → ℕ
or_else none d = d
or_else (some n) d = n

abbrev admit_cooling : BreakerSnapshot → ℕ → ℕ → BreakerDecision
admit_cooling snapshot now cooldown_ms =
    let since = or_else snapshot.opened_at now in
    if ltb now (since + cooldown_ms)
    then record { allow = false; next = snapshot; retry_at = some (since + cooldown_ms) }
    else record {
      allow = true;
      next = record snapshot { state = half_open; opened_at = some now };
      retry_at = none;
    }

abbrev admit_in : BreakerState → BreakerSnapshot → ℕ → ℕ → BreakerDecision
admit_in closed snapshot now cooldown_ms = record { allow = true; next = snapshot; retry_at = none }
admit_in opened snapshot now cooldown_ms = admit_cooling snapshot now cooldown_ms
admit_in half_open snapshot now cooldown_ms = admit_cooling snapshot now cooldown_ms

unfoldable pub admit : BreakerSnapshot → ℕ → ℕ → BreakerDecision
admit snapshot now cooldown_ms = admit_in snapshot.state snapshot now cooldown_ms

unfoldable pub on_success : BreakerSnapshot → BreakerSnapshot
on_success snapshot = closed_breaker

abbrev fail_in : BreakerState → ℕ → ℕ → ℕ → BreakerSnapshot
fail_in half_open failures now threshold = record {
  state = opened;
  consecutive_failures = failures;
  opened_at = some now;
}
fail_in _ failures now threshold =
    if leb threshold failures
    then record { state = opened; consecutive_failures = failures; opened_at = some now }
    else record { state = closed; consecutive_failures = failures; opened_at = none }

unfoldable pub on_failure : BreakerSnapshot → ℕ → ℕ → BreakerSnapshot
on_failure snapshot now threshold =
    fail_in snapshot.state (snapshot.consecutive_failures + 1) now threshold
