-- ===== src/Webhook/Drain/Failing.antt =====
-- How many requests one pass of `drainEndpoint` (webhook.service.ts) makes to an endpoint that fails.
use build_affiliate.Common.{
  ℕ, suc, ◌+◌, ◌≤◌, ◌<◌, ◌≡◌, refl, true, false, some, List, [], ◌∷◌, ltb, arith, ap, ◌∙◌,
  Bool-cases, inl, inr,
}
use build_affiliate.Breaker.{
  BreakerSnapshot, closed, opened, admit, on_failure, breaker_failure_threshold,
  breaker_cooldown_ms,
}
use build_affiliate.Webhook.Delivery.{
  World, DueDelivery, Outbound, is_success, is_gone, Attempt, after_failure, attempt_delivery,
  Tally, count_attempt,
}
use build_affiliate.Webhook.Drain.{
  Turn, send_turn, breaker_for, same_state, drain_step, drain_from, persist_probe,
}

-- The endpoint answers every request, with neither a success nor a 410, or not at all.
pub record AlwaysFails (w : World) : Type 0 where
  pub opens : (endpoint : ℕ) → w.opens_secret endpoint ≡ true
  pub no_success : (id attempts : ℕ) → is_success (w.send id attempts).status_code ≡ false
  pub not_gone : (id attempts : ℕ) → is_gone (w.send id attempts).status_code ≡ false

attempt_fails :
    (w : World) (due : DueDelivery) (b : BreakerSnapshot) (now : ℕ) (s : Outbound)
    → AlwaysFails w
    → let a = attempt_delivery w due b now s in
      (a.delivered ≡ false)
      × (a.endpoint_disabled ≡ false)
      × (a.breaker ≡ on_failure b now breaker_failure_threshold)
unfolding attempt_delivery after_failure
attempt_fails w due b now s h =
    rw
      (
        h.opens due.endpoint.id,
        h.no_success due.row.id due.row.attempts,
        h.not_gone due.row.id due.row.attempts,
      )
      (refl, refl, refl)

admit_tripped :
    (b : BreakerSnapshot) (now : ℕ)
    → b.state ≡ opened
    → b.opened_at ≡ some now
    → (admit b now breaker_cooldown_ms).allow ≡ false
unfolding admit
admit_tripped b now o t = ground arith

parked_step :
    (w : World) (now : ℕ) (due : DueDelivery) (turn : Turn)
    → turn.disabled ≡ false
    → (admit turn.breaker now breaker_cooldown_ms).allow ≡ false
    → let next = drain_step w now due turn in
      (next.disabled ≡ false)
      × (next.breaker ≡ turn.breaker)
      × (next.tally.failed ≡ turn.tally.failed)
unfolding drain_step
parked_step w now due turn d r = rw (d, r) (refl, refl, refl)

-- The breaker has tripped at this very time: the rest of the group is parked.
drain_tripped :
    (w : World) (now : ℕ) (turn : Turn) (group : List DueDelivery)
    → turn.disabled ≡ false
    → turn.breaker.state ≡ opened
    → turn.breaker.opened_at ≡ some now
    → (drain_from w now turn group).tally.failed ≡ turn.tally.failed
unfolding drain_from
drain_tripped w now turn [] d o t = refl
drain_tripped w now turn (due ∷ group) d o t =
    let (stays, same, none_) = parked_step w now due turn d (admit_tripped turn.breaker now o t) in
    drain_tripped w now (drain_step w now due turn) group stays
      (ap (λ (b : BreakerSnapshot). b.state) same ∙ o)
      (ap (λ (b : BreakerSnapshot). b.opened_at) same ∙ t)
    ∙ none_

admit_closed :
    (b : BreakerSnapshot) (now : ℕ)
    → b.state ≡ closed
    → ((admit b now breaker_cooldown_ms).allow ≡ true)
      × ((admit b now breaker_cooldown_ms).next ≡ b)
unfolding admit
admit_closed b now h = (ground arith, ground arith)

breaker_for_self : (b : BreakerSnapshot) → breaker_for b b ≡ b
breaker_for_self b = elim (Bool-cases (same_state b.state b.state)) [
  | inl yes_ ↦ rw yes_ refl
  | inr no_ ↦ rw no_ refl
]

count_failed :
    (a : Attempt) (t : Tally) → a.delivered ≡ false → (count_attempt a t).failed ≡ t.failed + 1
count_failed a t h = rw h refl

sent_step :
    (w : World) (now : ℕ) (due : DueDelivery) (turn : Turn)
    → AlwaysFails w
    → turn.disabled ≡ false
    → turn.breaker.state ≡ closed
    → let next = drain_step w now due turn in
      (next.disabled ≡ false)
      × (next.breaker ≡ on_failure turn.breaker now breaker_failure_threshold)
      × (next.tally.failed ≡ turn.tally.failed + 1)
unfolding drain_step send_turn
sent_step w now due turn h d c =
    let b = turn.breaker in
    let (allowed, same) = admit_closed b now c in
    let a = attempt_delivery w due (breaker_for b b) now (persist_probe due b b turn.store) in
    let (lost, stays, moved) =
      attempt_fails w due (breaker_for b b) now (persist_probe due b b turn.store) h in
    rw (d, allowed, same)
      (
        stays,
        moved
            ∙ ap (λ (x : BreakerSnapshot). on_failure x now breaker_failure_threshold)
                (breaker_for_self b),
        count_failed a turn.tally lost,
      )

on_failure_closed :
    (b : BreakerSnapshot) (now : ℕ)
    → b.state ≡ closed
    → let next = on_failure b now breaker_failure_threshold in
      (suc b.consecutive_failures < breaker_failure_threshold
        → (next.state ≡ closed) × (next.consecutive_failures ≡ suc b.consecutive_failures))
      × (breaker_failure_threshold ≤ suc b.consecutive_failures
          → (next.state ≡ opened) × (next.opened_at ≡ some now))
unfolding on_failure
on_failure_closed b now h =
    (λ less. (ground arith, ground arith), λ reached. (ground arith, ground arith))

-- If every request fails, a pass over one endpoint whose breaker is closed makes no more requests than
-- the failures that are missing to the threshold, however many deliveries are due.
pub failures_bounded :
    (w : World) (now : ℕ) (turn : Turn) (group : List DueDelivery)
    → AlwaysFails w
    → turn.disabled ≡ false
    → turn.breaker.state ≡ closed
    → turn.breaker.consecutive_failures < breaker_failure_threshold
    → (drain_from w now turn group).tally.failed + turn.breaker.consecutive_failures
      ≤ turn.tally.failed + breaker_failure_threshold
unfolding drain_from
failures_bounded w now turn [] h d c less = omega arith
failures_bounded w now turn (due ∷ group) h d c less =
    let next = drain_step w now due turn in
    let (stays, moved, one) = sent_step w now due turn h d c in
    let (below, reached) = on_failure_closed turn.breaker now c in
    elim (Bool-cases (ltb (suc turn.breaker.consecutive_failures) breaker_failure_threshold)) [
      | inl more_ ↦
          let (c', n') = below (ground arith) in
          let rest =
            failures_bounded w now next group h stays
              (ap (λ (b : BreakerSnapshot). b.state) moved ∙ c') (rw (moved, n') (ground arith)) in
          omega (arith, rest, one, ap (λ (b : BreakerSnapshot). b.consecutive_failures) moved, n')
      | inr last_ ↦
          let (o', t') = reached (ground arith) in
          let rest =
            drain_tripped w now next group stays (ap (λ (b : BreakerSnapshot). b.state) moved ∙ o')
              (ap (λ (b : BreakerSnapshot). b.opened_at) moved ∙ t') in
          omega (arith, rest, one)
    ]
