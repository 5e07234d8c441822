-- ===== src/Webhook/Drain.antt =====
-- The passes of apps/api/src/services/webhook.service.ts over what is due: `drainEndpoint`,
-- `byEndpoint`, `deliverDue`, and the manual `replayDelivery`.
pub mod Budget
pub mod Failing
use build_affiliate.Common.{
  ℕ, ◌+◌, Bool, true, false, ◌&&◌, not, Option, none, some, List, [], ◌∷◌, ◌++◌, filter, find, take,
  leb, ◌==◌, if◌then◌else◌,
}
use build_affiliate.Common.Result.{Result, ok, err, ◌>>=◌, ◌>>◌, guard, or_throw}
use build_affiliate.Common.Sorting.{sort_by}
use build_affiliate.Breaker.{
  BreakerState, closed, opened, half_open, BreakerSnapshot, BreakerDecision, admit,
  breaker_cooldown_ms, or_else,
}
use build_affiliate.Webhook.Tables.{pending, WebhookEndpoint, WebhookDelivery}
use build_affiliate.Webhook.Enqueue.{is_active}
use build_affiliate.Webhook.Delivery.{
  World, Outbound, DueDelivery, breaker_of, to_breaker_columns, update_delivery, update_endpoint,
  is_pending, is_failed, Attempt, attempt_delivery, Tally, no_tally, skip_one, count_attempt,
}

abbrev pub same_state : BreakerState → BreakerState → Bool
same_state closed closed = true
same_state opened opened = true
same_state half_open half_open = true
same_state _ _ = false

-- The new state of the breaker is written before the request goes out.
unfoldable pub persist_probe : DueDelivery → BreakerSnapshot → BreakerSnapshot → Outbound → Outbound
persist_probe due before next s =
    if same_state next.state before.state
    then s
    else update_endpoint due.row.endpoint_id (to_breaker_columns next) s

-- `breaker = decision.next` only where the state changes.
abbrev pub breaker_for : BreakerSnapshot → BreakerSnapshot → BreakerSnapshot
breaker_for before next = if same_state next.state before.state then before else next

unfoldable pub park : DueDelivery → BreakerDecision → ℕ → Outbound → Outbound
park due decision now s =
    update_delivery due.row.id
      (λ d. record d { next_attempt_at = or_else decision.retry_at (now + 1000) }) s

-- The variables of the loop; `disabled` is set once the endpoint has answered 410.
pub record Turn : Type 0 where
  pub breaker : BreakerSnapshot
  pub disabled : Bool
  pub tally : Tally
  pub store : Outbound

-- A delivery that the breaker admits.
unfoldable pub send_turn : World → ℕ → DueDelivery → BreakerSnapshot → Turn → Turn
unfolding persist_probe
send_turn w now due next turn =
    let a =
      attempt_delivery w due (breaker_for turn.breaker next) now
        (persist_probe due turn.breaker next turn.store) in
    record {
      breaker = a.breaker;
      disabled = a.endpoint_disabled;
      tally = count_attempt a turn.tally;
      store = a.store;
    }

-- The body of the loop.
unfoldable pub drain_step : World → ℕ → DueDelivery → Turn → Turn
unfolding send_turn park
drain_step w now due turn =
    let decision = admit turn.breaker now breaker_cooldown_ms in
    if turn.disabled
    then record turn { tally = skip_one turn.tally }
    else if decision.allow
    then send_turn w now due decision.next turn
    else record turn { tally = skip_one turn.tally; store = park due decision now turn.store }

unfoldable pub drain_from : World → ℕ → Turn → List DueDelivery → Turn
unfolding drain_step
drain_from w now turn [] = turn
drain_from w now turn (due ∷ group) = drain_from w now (drain_step w now due turn) group

pub record Drained : Type 0 where
  pub store : Outbound
  pub tally : Tally

abbrev pub first_turn : DueDelivery → Outbound → Turn
first_turn due s = record {
  breaker = breaker_of due.endpoint;
  disabled = false;
  tally = no_tally;
  store = s;
}

-- A group is never empty.
unfoldable pub drain_endpoint : World → ℕ → Outbound → List DueDelivery → Drained
unfolding drain_from
drain_endpoint w now s [] = record { store = s; tally = no_tally }
drain_endpoint w now s (due ∷ group) =
    let last = drain_from w now (first_turn due s) (due ∷ group) in
    record { store = last.store; tally = last.tally }

-- `listDue`: the pending deliveries whose time has come, of active endpoints, in order of time.
abbrev pub is_due : ℕ → WebhookDelivery → Bool
is_due now d = is_pending d.status && leb d.next_attempt_at now

-- The endpoint that a row includes; the rows of no active endpoint are left out.
abbrev pub attach : WebhookDelivery → Option WebhookEndpoint → List DueDelivery → List DueDelivery
attach d none dues = dues
attach d (some e) dues =
    if is_active e.status then record { row = d; endpoint = e } ∷ dues else dues

abbrev pub with_endpoints : List WebhookEndpoint → List WebhookDelivery → List DueDelivery
with_endpoints endpoints [] = []
with_endpoints endpoints (d ∷ ds) =
    attach d (find (λ e. e.id == d.endpoint_id) endpoints) (with_endpoints endpoints ds)

abbrev pub due_time : DueDelivery → ℕ
due_time d = d.row.next_attempt_at

unfoldable pub list_due : Outbound → ℕ → ℕ → List DueDelivery
list_due s now limit =
    take limit (sort_by due_time (with_endpoints s.endpoints (filter (is_due now) s.deliveries)))

-- The `Map` from endpoints to their deliveries, in order of insertion.
unfoldable pub add_due : DueDelivery → List (List DueDelivery) → List (List DueDelivery)
add_due due [] = (due ∷ []) ∷ []
add_due due ([] ∷ groups) = [] ∷ add_due due groups
add_due due ((first ∷ group) ∷ groups) =
    if first.row.endpoint_id == due.row.endpoint_id
    then ((first ∷ group) ++ due ∷ []) ∷ groups
    else (first ∷ group) ∷ add_due due groups

unfoldable pub by_endpoint : List DueDelivery → List (List DueDelivery) → List (List DueDelivery)
unfolding add_due
by_endpoint [] groups = groups
by_endpoint (due ∷ dues) groups = by_endpoint dues (add_due due groups)

abbrev pub add_tally : Tally → Tally → Tally
add_tally a b = record {
  delivered = a.delivered + b.delivered;
  failed = a.failed + b.failed;
  skipped = a.skipped + b.skipped;
}

unfoldable pub drain_all : World → ℕ → Tally → Outbound → List (List DueDelivery) → Drained
drain_all w now t s [] = record { store = s; tally = t }
drain_all w now t s (group ∷ groups) =
    let d = drain_endpoint w now s group in drain_all w now (add_tally t d.tally) d.store groups

unfoldable pub deliver_due : World → ℕ → ℕ → Outbound → Drained
unfolding drain_all by_endpoint list_due
deliver_due w now limit s = drain_all w now no_tally s (by_endpoint (list_due s now limit) [])

pub data ReplayError : Type 0 where
  delivery_not_found forbidden delivery_not_failed endpoint_disabled : ReplayError

abbrev pub replay_row : ℕ → WebhookDelivery → WebhookDelivery
replay_row at_ d = record d {
  status = pending;
  attempts = 0;
  next_attempt_at = at_;
  last_error = none;
  last_status_code = none;
}

unfoldable pub replay_delivery : Outbound → ℕ → ℕ → ℕ → Result ReplayError Outbound
replay_delivery s brand_id delivery_id now = do
  d ← or_throw (find (λ d. d.id == delivery_id) s.deliveries) delivery_not_found
  e ← or_throw (find (λ e. e.id == d.endpoint_id) s.endpoints) delivery_not_found
  guard (e.brand_id == brand_id) forbidden
  guard (is_failed d.status) delivery_not_failed
  guard (is_active e.status) endpoint_disabled
  ok (update_delivery delivery_id (replay_row now) s)
