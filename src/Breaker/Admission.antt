-- ===== src/Breaker/Admission.antt =====
-- When the breaker lets a delivery through.
use build_affiliate.Common.{
  ℕ, suc, ◌+◌, ◌≤◌, ◌<◌, ◌≡◌, ap, refl, ◌≢◌, ◌↔◌, true, false, none, some, List, [], ◌∷◌, arith,
  All, if◌then◌else◌, length,
}
use build_affiliate.Breaker.{
  BreakerSnapshot, closed, opened, half_open, closed_breaker, or_else, admit, on_success,
  on_failure,
}
use build_affiliate.Breaker.Wellformed.{fail_all}

-- For a breaker with an opening time, a refusal at `now` names a later time `t`; every question before `t` is refused too, and every
-- question from `t` on is admitted, whoever asks.
pub refused_until :
    (s : BreakerSnapshot) (now later cooldown_ms : ℕ)
    → s.opened_at ≢ none
    → (admit s now cooldown_ms).allow ≡ false
    → (now < or_else (admit s now cooldown_ms).retry_at 0)
      × ((admit s later cooldown_ms).allow ≡ true
          ↔ or_else (admit s now cooldown_ms).retry_at 0 ≤ later)
unfolding admit
refused_until s now later cooldown_ms stamped h = (ground arith, (ground arith, ground arith))

-- How many of the questions, asked in turn with no result in between, are admitted.
abbrev pub admissions : ℕ → BreakerSnapshot → List ℕ → ℕ
admissions cooldown_ms s [] = 0
admissions cooldown_ms s (t ∷ ts) =
    let d = admit s t cooldown_ms in
    let rest = admissions cooldown_ms d.next ts in if d.allow then suc rest else rest

admit_probe :
    (s : BreakerSnapshot) (t start cooldown_ms : ℕ)
    → s.state ≢ closed
    → s.opened_at ≡ some start
    → t < start + cooldown_ms
    → ((admit s t cooldown_ms).allow ≡ false) × ((admit s t cooldown_ms).next ≡ s)
unfolding admit
admit_probe s t start cooldown_ms n e h = (ground arith, ground arith)

no_admissions :
    (s : BreakerSnapshot) (ts : List ℕ) (start cooldown_ms : ℕ)
    → s.state ≢ closed
    → s.opened_at ≡ some start
    → All (λ t. t < start + cooldown_ms) ts
    → admissions cooldown_ms s ts ≡ 0
no_admissions s [] start cooldown_ms n e h = refl
no_admissions s (t ∷ ts) start cooldown_ms n e h =
    let (refused, same) = admit_probe s t start cooldown_ms n e h.0 in
    rw (refused, same) (no_admissions s ts start cooldown_ms n e h.1)

admitted_probe :
    (s : BreakerSnapshot) (t cooldown_ms : ℕ)
    → s.state ≢ closed
    → (admit s t cooldown_ms).allow ≡ true
    → ((admit s t cooldown_ms).next.state ≡ half_open)
      × ((admit s t cooldown_ms).next.opened_at ≡ some t)
unfolding admit
admitted_probe s t cooldown_ms n h = (ground arith, ground arith)

-- After a question at `t` admitted a probe through a breaker that is not closed, no question
-- within the next cooldown is admitted until the probe's result is recorded: one probe is out.
pub one_probe :
    (s : BreakerSnapshot) (t : ℕ) (ts : List ℕ) (cooldown_ms : ℕ)
    → s.state ≢ closed
    → (admit s t cooldown_ms).allow ≡ true
    → All (λ u. u < t + cooldown_ms) ts
    → admissions cooldown_ms s (t ∷ ts) ≡ 1
one_probe s t ts cooldown_ms n a h =
    let (half, stamp) = admitted_probe s t cooldown_ms n a in
    rw a (
      ap suc
        (no_admissions (admit s t cooldown_ms).next ts t cooldown_ms (λ e. cc (half, e)) stamp h))

fail_closed :
    (s : BreakerSnapshot) (t threshold : ℕ)
    → s.state ≡ closed
    → suc s.consecutive_failures < threshold
    → ((on_failure s t threshold).state ≡ closed)
      × ((on_failure s t threshold).consecutive_failures ≡ suc s.consecutive_failures)
unfolding on_failure
fail_closed s t threshold c h = (ground arith, ground arith)

fail_trips :
    (s : BreakerSnapshot) (t threshold : ℕ)
    → threshold ≤ suc s.consecutive_failures
    → ((on_failure s t threshold).state ≡ opened)
      × ((on_failure s t threshold).consecutive_failures ≡ suc s.consecutive_failures)
      × ((on_failure s t threshold).opened_at ≡ some t)
unfolding on_failure
fail_trips s t threshold h = (ground arith, ground arith, ground arith)

fail_all-closed :
    (s : BreakerSnapshot) (ts : List ℕ) (threshold : ℕ)
    → s.state ≡ closed
    → s.consecutive_failures + length ts < threshold
    → ((fail_all threshold s ts).state ≡ closed)
      × ((fail_all threshold s ts).consecutive_failures ≡ s.consecutive_failures + length ts)
fail_all-closed s [] threshold c h = (c, omega arith)
fail_all-closed s (t ∷ ts) threshold c h =
    let (still, count) = fail_closed s t threshold c (omega arith) in
    let (end, total) =
      fail_all-closed (on_failure s t threshold) ts threshold still (omega arith) in
    (end, omega arith)

-- Starting closed, consecutive failures trip the breaker exactly at the threshold: one fewer leaves it
-- closed, the one that reaches the threshold opens it at its own time, and a success instead of it
-- clears the count.
pub trips_at_threshold :
    (ts : List ℕ) (t threshold : ℕ)
    → suc (length ts) ≡ threshold
    → ((fail_all threshold closed_breaker ts).state ≡ closed)
      × ((on_failure (fail_all threshold closed_breaker ts) t threshold).state ≡ opened)
      × ((on_failure (fail_all threshold closed_breaker ts) t threshold).opened_at ≡ some t)
      × (on_success (fail_all threshold closed_breaker ts) ≡ closed_breaker)
unfolding on_success
trips_at_threshold ts t threshold h =
    let (still, count) = fail_all-closed closed_breaker ts threshold refl (omega arith) in
    let tripped = fail_trips (fail_all threshold closed_breaker ts) t threshold (omega arith) in
    (still, tripped.0, tripped.2, refl)
