-- ===== src/Webhook/Drain/Budget.antt =====
-- The budget of attempts: what every pass of webhook.service.ts keeps true of the deliveries.
use mathlib.Core.Path.{subst}
use build_affiliate.Common.{
  ℕ, zero, suc, ◌≤◌, ◌<◌, ◌≡◌, Bool, true, Option, none, some, List, [], ◌∷◌, ◌++◌, update_where,
  filter, find, take, All, ◌==◌, if◌then◌else◌, arith, Bool-cases, inl, inr,
}
use build_affiliate.Common.Result.{ok, >>=-eq-ok, ok-injective, or_throw, guard}
use build_affiliate.Common.Sorting.{All-sort_by}
use build_affiliate.Breaker.{BreakerSnapshot, admit, breaker_cooldown_ms}
use build_affiliate.Webhook.Tables.{WebhookDelivery, WebhookEndpoint, failed, backlog_of_gone}
use build_affiliate.Webhook.Enqueue.{is_active}
use build_affiliate.Webhook.Backoff.{webhook_max_attempts}
use build_affiliate.Webhook.Delivery.{
  World, Outbound, DueDelivery, WebhookAttempt, Tally, no_tally, is_pending, is_failed, is_success,
  is_gone, is_backlog, update_delivery, update_endpoint, fail_pending_for_endpoint, after_success,
  after_gone, after_failure, after_closed_secret, attempt_delivery,
}
use build_affiliate.Webhook.Drain.{
  Turn, first_turn, add_tally, same_state, persist_probe, park, send_turn, drain_step, drain_from,
  drain_endpoint, drain_all, attach, with_endpoints, is_due, due_time, list_due, add_due,
  by_endpoint, deliver_due, replay_row, replay_delivery, delivery_not_found, forbidden,
  delivery_not_failed, endpoint_disabled,
}

-- At most six attempts, and fewer while another one is due.
abbrev pub IsBudgeted : WebhookDelivery → Type 0
IsBudgeted d =
    (d.attempts ≤ webhook_max_attempts)
    × (is_pending d.status ≡ true → d.attempts < webhook_max_attempts)

abbrev pub AllBudgeted : Outbound → Type 0
AllBudgeted s = All IsBudgeted s.deliveries

All-update_where :
    (P : WebhookDelivery → Type 0) (p : WebhookDelivery → Bool)
    (f : WebhookDelivery → WebhookDelivery) (ds : List WebhookDelivery)
    → ((d : WebhookDelivery) → P d → P (f d))
    → All P ds
    → All P (update_where p f ds)
All-update_where P p f [] keeps h = tt
All-update_where P p f (d ∷ ds) keeps h = elim (Bool-cases (p d)) [
  | inl in_ ↦ rw in_ (keeps d h.0, All-update_where P p f ds keeps h.1)
  | inr out_ ↦ rw out_ (h.0, All-update_where P p f ds keeps h.1)
]

updated :
    (id : ℕ) (f : WebhookDelivery → WebhookDelivery) (s : Outbound)
    → ((d : WebhookDelivery) → IsBudgeted d → IsBudgeted (f d))
    → AllBudgeted s
    → AllBudgeted (update_delivery id f s)
unfolding update_delivery
updated id f s keeps h = All-update_where IsBudgeted (λ d. d.id == id) f s.deliveries keeps h

backlog_failed :
    (endpoint : ℕ) (s : Outbound)
    → AllBudgeted s
    → AllBudgeted (fail_pending_for_endpoint endpoint backlog_of_gone s)
unfolding fail_pending_for_endpoint
backlog_failed endpoint s h =
    All-update_where IsBudgeted (is_backlog endpoint)
      (λ d. record d { status = failed; last_error = some backlog_of_gone }) s.deliveries
      (λ d b. (b.0, λ e. cc)) h

-- An attempt at a delivery that had less than six keeps every delivery within its budget.
attempt_budgeted :
    (w : World) (due : DueDelivery) (b : BreakerSnapshot) (now : ℕ) (s : Outbound)
    → due.row.attempts < webhook_max_attempts
    → AllBudgeted s
    → AllBudgeted (attempt_delivery w due b now s).store
unfolding attempt_delivery after_success after_gone after_failure after_closed_secret
    update_endpoint
attempt_budgeted w due b now s less h = elim (Bool-cases (w.opens_secret due.endpoint.id)) [
  | inr shut_ ↦ rw shut_ (updated due.row.id _ s (λ d k. (k.0, λ e. cc)) h)
  | inl opens_ ↦ rw opens_ (answered (w.send due.row.id due.row.attempts))
]
  where
    answered :
        (r : WebhookAttempt)
        → AllBudgeted
            (if is_success r.status_code
              then after_success w due b r.status_code s
              else if is_gone r.status_code
              then after_gone due b s
              else after_failure w due b r now s).store
    answered r = elim (Bool-cases (is_success r.status_code)) [
      | inl ok_ ↦ rw ok_ (updated due.row.id _ s (λ d k. (omega arith, λ e. cc)) h)
      | inr bad_ ↦ elim (Bool-cases (is_gone r.status_code)) [
        | inl gone_ ↦
            rw (bad_, gone_)
              (backlog_failed due.endpoint.id _
                (updated due.row.id _ _ (λ d k. (omega arith, λ e. cc)) h))
        | inr plain_ ↦
            rw (bad_, plain_) (updated due.row.id _ s (λ d k. (omega arith, λ e. ground arith)) h)
      ]
    ]

abbrev pub IsFresh : DueDelivery → Type 0
IsFresh due = due.row.attempts < webhook_max_attempts

drain_step-AllBudgeted :
    (w : World) (now : ℕ) (due : DueDelivery) (turn : Turn)
    → IsFresh due
    → AllBudgeted turn.store
    → AllBudgeted (drain_step w now due turn).store
unfolding drain_step send_turn park persist_probe update_endpoint
drain_step-AllBudgeted w now due turn fresh h = elim (Bool-cases turn.disabled) [
  | inl gone_ ↦ rw gone_ h
  | inr here_ ↦ elim (Bool-cases (admit turn.breaker now breaker_cooldown_ms).allow) [
    | inl allowed_ ↦ rw (here_, allowed_) (attempt_budgeted w due _ now _ fresh (probed _))
    | inr refused_ ↦ rw (here_, refused_) (updated due.row.id _ turn.store (λ d k. k) h)
  ]
]
  where
    probed : (next : BreakerSnapshot) → AllBudgeted (persist_probe due turn.breaker next turn.store)
    probed next = elim (Bool-cases (same_state next.state turn.breaker.state)) [
      | inl same_ ↦ rw same_ h
      | inr other_ ↦ rw other_ h
    ]

drain_from-AllBudgeted :
    (w : World) (now : ℕ) (turn : Turn) (group : List DueDelivery)
    → All IsFresh group
    → AllBudgeted turn.store
    → AllBudgeted (drain_from w now turn group).store
unfolding drain_from
drain_from-AllBudgeted w now turn [] f h = h
drain_from-AllBudgeted w now turn (due ∷ group) f h =
    drain_from-AllBudgeted w now (drain_step w now due turn) group f.1
      (drain_step-AllBudgeted w now due turn f.0 h)

drain_endpoint-AllBudgeted :
    (w : World) (now : ℕ) (s : Outbound) (group : List DueDelivery)
    → All IsFresh group
    → AllBudgeted s
    → AllBudgeted (drain_endpoint w now s group).store
unfolding drain_endpoint
drain_endpoint-AllBudgeted w now s [] f h = h
drain_endpoint-AllBudgeted w now s (due ∷ group) f h =
    drain_from-AllBudgeted w now (first_turn due s) (due ∷ group) f h

drain_all-AllBudgeted :
    (w : World) (now : ℕ) (t : Tally) (s : Outbound) (groups : List (List DueDelivery))
    → All (All IsFresh) groups
    → AllBudgeted s
    → AllBudgeted (drain_all w now t s groups).store
unfolding drain_all
drain_all-AllBudgeted w now t s [] f h = h
drain_all-AllBudgeted w now t s (group ∷ groups) f h =
    drain_all-AllBudgeted w now (add_tally t (drain_endpoint w now s group).tally)
      (drain_endpoint w now s group).store groups f.1
      (drain_endpoint-AllBudgeted w now s group f.0 h)

-- What is due is pending, so it has attempts left.
attach-IsFresh :
    (d : WebhookDelivery) (o : Option WebhookEndpoint) (dues : List DueDelivery)
    → d.attempts < webhook_max_attempts
    → All IsFresh dues
    → All IsFresh (attach d o dues)
attach-IsFresh d none dues p h = h
attach-IsFresh d (some e) dues p h = elim (Bool-cases (is_active e.status)) [
  | inl active_ ↦ rw active_ (p, h)
  | inr disabled_ ↦ rw disabled_ h
]

due-IsFresh :
    (now : ℕ) (es : List WebhookEndpoint) (ds : List WebhookDelivery)
    → All IsBudgeted ds
    → All IsFresh (with_endpoints es (filter (is_due now) ds))
due-IsFresh now es [] h = tt
due-IsFresh now es (d ∷ ds) h = elim (Bool-cases (is_due now d)) [
  | inl due_ ↦ rw due_ (
      attach-IsFresh d (find (λ e. e.id == d.endpoint_id) es) _ (h.0.1 (ground arith))
        (due-IsFresh now es ds h.1))
  | inr later_ ↦ rw later_ (due-IsFresh now es ds h.1)
]

All-take : (n : ℕ) (dues : List DueDelivery) → All IsFresh dues → All IsFresh (take n dues)
All-take zero dues h = tt
All-take (suc n) [] h = tt
All-take (suc n) (due ∷ dues) h = (h.0, All-take n dues h.1)

All-append_one :
    (dues : List DueDelivery) (due : DueDelivery)
    → All IsFresh dues
    → IsFresh due
    → All IsFresh (dues ++ due ∷ [])
All-append_one [] due h f = (f, tt)
All-append_one (d ∷ dues) due h f = (h.0, All-append_one dues due h.1 f)

add_due-IsFresh :
    (due : DueDelivery) (groups : List (List DueDelivery))
    → IsFresh due
    → All (All IsFresh) groups
    → All (All IsFresh) (add_due due groups)
unfolding add_due
add_due-IsFresh due [] f h = ((f, tt), tt)
add_due-IsFresh due ([] ∷ groups) f h = (tt, add_due-IsFresh due groups f h.1)
add_due-IsFresh due ((d ∷ group) ∷ groups) f h =
    elim (Bool-cases (d.row.endpoint_id == due.row.endpoint_id)) [
      | inl same_ ↦ rw same_ ((h.0.0, All-append_one group due h.0.1 f), h.1)
      | inr other_ ↦ rw other_ (h.0, add_due-IsFresh due groups f h.1)
    ]

by_endpoint-IsFresh :
    (dues : List DueDelivery) (groups : List (List DueDelivery))
    → All IsFresh dues
    → All (All IsFresh) groups
    → All (All IsFresh) (by_endpoint dues groups)
unfolding by_endpoint
by_endpoint-IsFresh [] groups f h = h
by_endpoint-IsFresh (due ∷ dues) groups f h =
    by_endpoint-IsFresh dues (add_due due groups) f.1 (add_due-IsFresh due groups f.0 h)

-- A replay, which gives one delivery its full budget back, keeps every delivery within its budget.
replay-AllBudgeted :
    (s : Outbound) (brand id now : ℕ) {s' : Outbound}
    → AllBudgeted s
    → replay_delivery s brand id now ≡ ok s'
    → AllBudgeted s'
unfolding replay_delivery
replay-AllBudgeted s brand id now h done =
    let (d, _, h1) =
      >>=-eq-ok (or_throw (find (λ d. d.id == id) s.deliveries) delivery_not_found) _ done in
    let (e, _, h2) =
      >>=-eq-ok (or_throw (find (λ e. e.id == d.endpoint_id) s.endpoints) delivery_not_found) _
        h1 in
    let (_, _, h3) = >>=-eq-ok (guard (e.brand_id == brand) forbidden) _ h2 in
    let (_, _, h4) = >>=-eq-ok (guard (is_failed d.status) delivery_not_failed) _ h3 in
    let (_, _, h5) = >>=-eq-ok (guard (is_active e.status) endpoint_disabled) _ h4 in
    subst AllBudgeted (ok-injective h5)
      (updated id (replay_row now) s (λ d k. (omega arith, λ e. omega arith)) h)

-- The budget of attempts: if every delivery has at most six, and less while it is pending, then so it
-- is after a pass over what is due, whatever the endpoints answer.
pub deliver_due-AllBudgeted :
    (w : World) (now limit : ℕ) (s : Outbound)
    → AllBudgeted s
    → AllBudgeted (deliver_due w now limit s).store
unfolding deliver_due list_due
deliver_due-AllBudgeted w now limit s h =
    drain_all-AllBudgeted w now no_tally s _
      (by_endpoint-IsFresh _ []
        (All-take limit _
          (All-sort_by due_time IsFresh _ (due-IsFresh now s.endpoints s.deliveries h)))
        tt)
      h
