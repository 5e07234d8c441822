-- ===== src/Breaker/Examples.antt =====
-- The theorems on the breaker at concrete snapshots.
use build_affiliate.Common.{◌≡◌, refl, ◌≤◌, ◌↔◌, true, some, [], ◌∷◌, arith}
use build_affiliate.Breaker.{
  BreakerSnapshot, opened, closed_breaker, breaker_cooldown_ms, breaker_failure_threshold, admit,
  on_failure,
}
use build_affiliate.Breaker.Wellformed.{IsWellformed, fail_all}
use build_affiliate.Breaker.Admission.{admissions, refused_until, one_probe, trips_at_threshold}

abbrev tripped : BreakerSnapshot
tripped = record { state = opened; consecutive_failures = 5; opened_at = some 1000 }

closed_breaker-IsWellformed : IsWellformed breaker_failure_threshold closed_breaker
closed_breaker-IsWellformed = ground arith

refused_until_example : (admit tripped 61000 60000).allow ≡ true ↔ 61000 ≤ 61000
unfolding admit
refused_until_example = (refused_until tripped 2000 61000 60000 (ground arith) refl).1

one_probe_example : admissions breaker_cooldown_ms tripped (61000 ∷ 61001 ∷ 61002 ∷ 120999 ∷ []) ≡ 1
unfolding admit
one_probe_example =
    one_probe tripped 61000 (61001 ∷ 61002 ∷ 120999 ∷ []) breaker_cooldown_ms (ground arith) refl
      (omega arith, (omega arith, (omega arith, tt)))

trips_at_threshold_example :
    (on_failure
      (fail_all breaker_failure_threshold closed_breaker (1 ∷ 2 ∷ 3 ∷ 4 ∷ []))
      5
      breaker_failure_threshold).state
    ≡ opened
trips_at_threshold_example =
    (trips_at_threshold (1 ∷ 2 ∷ 3 ∷ 4 ∷ []) 5 breaker_failure_threshold refl).1
