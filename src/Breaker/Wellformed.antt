-- ===== src/Breaker/Wellformed.antt =====
-- What every snapshot that the breaker's own operations produce satisfies.
use build_affiliate.Common.{ℕ, ◌<◌, ◌≡◌, ◌≢◌, none, List, [], ◌∷◌, arith}
use build_affiliate.Breaker.{BreakerSnapshot, closed, admit, on_success, on_failure}

-- A closed breaker has no opening time and is below the threshold; any other has an opening time.
pub record IsWellformed (threshold : ℕ) (s : BreakerSnapshot) : Type 0 where
  pub closed_clear : s.state ≡ closed → s.opened_at ≡ none
  pub closed_below : s.state ≡ closed → s.consecutive_failures < threshold
  pub open_stamped : s.state ≢ closed → s.opened_at ≢ none

-- One event in the life of a breaker.
pub data BreakerEvent : Type 0 where
  asked : ℕ → BreakerEvent
  succeeded : BreakerEvent
  failed_at : ℕ → BreakerEvent

module _ (threshold cooldown_ms : ℕ) where
  abbrev pub step_event : BreakerSnapshot → BreakerEvent → BreakerSnapshot
  step_event s (asked now) = (admit s now cooldown_ms).next
  step_event s succeeded = on_success s
  step_event s (failed_at now) = on_failure s now threshold

  abbrev pub run_events : BreakerSnapshot → List BreakerEvent → BreakerSnapshot
  run_events s [] = s
  run_events s (e ∷ es) = run_events (step_event s e) es

  step_event-IsWellformed :
      (s : BreakerSnapshot) (e : BreakerEvent)
      → 0 < threshold
      → IsWellformed threshold s
      → IsWellformed threshold (step_event s e)
  unfolding admit on_success on_failure
  step_event-IsWellformed s (asked now) p h = ground arith
  step_event-IsWellformed s succeeded p h = ground arith
  step_event-IsWellformed s (failed_at now) p h = ground arith

  -- With a positive threshold, admissions, successes and failures at any times keep a well-formed
  -- snapshot well formed.
  run_events-IsWellformed :
      (s : BreakerSnapshot) (es : List BreakerEvent)
      → 0 < threshold
      → IsWellformed threshold s
      → IsWellformed threshold (run_events s es)
  run_events-IsWellformed s [] p h = h
  run_events-IsWellformed s (e ∷ es) p h =
      run_events-IsWellformed (step_event s e) es p (step_event-IsWellformed s e p h)

-- Failures alone, at the times of the list.
abbrev pub fail_all : ℕ → BreakerSnapshot → List ℕ → BreakerSnapshot
fail_all threshold s [] = s
fail_all threshold s (t ∷ ts) = fail_all threshold (on_failure s t threshold) ts
