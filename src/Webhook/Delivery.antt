-- ===== src/Webhook/Delivery.antt =====
-- The sending half of apps/api/src/services/webhook.service.ts: `attemptDelivery`, `drainEndpoint`,
-- `deliverDue` and `replayDelivery`, with the queries of webhook.repository.ts. What is outside the
-- service is a `World`: whether a signing secret opens, what the transport answers to an attempt, and
-- the wall clock. `deliverDue` works on its endpoints concurrently; here it takes them in turn, which
-- writes the same rows, since the groups share none. The rows that a pass updates exist: deleting an
-- endpoint in the middle of a pass, on which `update` throws, is not modelled.
use Prim.Native.String.{String}
use build_affiliate.Common.{
  ℕ, ◌+◌, Bool, true, false, ◌&&◌, not, Option, none, some, List, update_where, leb, ltb, ◌==◌,
  if◌then◌else◌,
}
use build_affiliate.Breaker.{BreakerSnapshot, on_success, on_failure, breaker_failure_threshold}
use build_affiliate.Webhook.Tables.{
  disabled, DeliveryStatus, pending, delivered, failed, WebhookEndpoint, WebhookDelivery,
  DeliveryNote, undecryptable, gone, backlog_of_gone, returned, reported,
}
use build_affiliate.Webhook.Backoff.{
  webhook_max_attempts, webhook_backoff_base_ms, next_delay_ms, seed_from,
}

pub record WebhookAttempt : Type 0 where
  pub status_code : Option ℕ
  pub error : Option String

pub record World : Type 0 where
  pub opens_secret : ℕ → Bool  -- of an endpoint
  pub send : ℕ → ℕ → WebhookAttempt  -- of a delivery, after that many attempts
  pub id_units : ℕ → List ℕ  -- the code units of a delivery's id
  pub wall_clock : ℕ

pub record Outbound : Type 0 where
  pub endpoints : List WebhookEndpoint
  pub deliveries : List WebhookDelivery

pub record DueDelivery : Type 0 where
  pub row : WebhookDelivery
  pub endpoint : WebhookEndpoint

unfoldable pub breaker_of : WebhookEndpoint → BreakerSnapshot
breaker_of e = record {
  state = e.breaker_state;
  consecutive_failures = e.consecutive_failures;
  opened_at = e.breaker_opened_at;
}

abbrev pub to_breaker_columns : BreakerSnapshot → WebhookEndpoint → WebhookEndpoint
to_breaker_columns b e = record e {
  breaker_state = b.state;
  consecutive_failures = b.consecutive_failures;
  breaker_opened_at = b.opened_at;
}

unfoldable pub update_delivery : ℕ → (WebhookDelivery → WebhookDelivery) → Outbound → Outbound
update_delivery id f s = record s { deliveries = update_where (λ d. d.id == id) f s.deliveries }

unfoldable pub update_endpoint : ℕ → (WebhookEndpoint → WebhookEndpoint) → Outbound → Outbound
update_endpoint id f s = record s { endpoints = update_where (λ e. e.id == id) f s.endpoints }

abbrev pub is_pending : DeliveryStatus → Bool
is_pending pending = true
is_pending _ = false

abbrev pub is_failed : DeliveryStatus → Bool
is_failed failed = true
is_failed _ = false

abbrev pub is_backlog : ℕ → WebhookDelivery → Bool
is_backlog endpoint d = d.endpoint_id == endpoint && is_pending d.status

unfoldable pub fail_pending_for_endpoint : ℕ → DeliveryNote → Outbound → Outbound
fail_pending_for_endpoint endpoint note s = record s {
  deliveries =
      update_where (is_backlog endpoint) (λ d. record d { status = failed; last_error = some note })
        s.deliveries;
}

pub record Attempt : Type 0 where
  pub store : Outbound
  pub delivered : Bool
  pub breaker : BreakerSnapshot
  pub endpoint_disabled : Bool

abbrev pub is_success : Option ℕ → Bool
is_success none = false
is_success (some code) = leb 200 code && ltb code 300

abbrev pub is_gone : Option ℕ → Bool
is_gone none = false
is_gone (some code) = code == 410

abbrev pub note_of : WebhookAttempt → DeliveryNote
note_of result = elim result.error [ none ↦ returned result.status_code | some e ↦ reported e ]

abbrev pub delivered_row : ℕ → Option ℕ → ℕ → WebhookDelivery → WebhookDelivery
delivered_row attempts code at_ d = record d {
  status = delivered;
  attempts = attempts;
  last_status_code = code;
  last_error = none;
  delivered_at = some at_;
}

abbrev pub gone_row : ℕ → WebhookDelivery → WebhookDelivery
gone_row attempts d = record d {
  status = failed;
  attempts = attempts;
  last_status_code = some 410;
  last_error = some gone;
}

-- A failed attempt: given up when the budget is spent, and otherwise due again after the backoff.
abbrev pub failed_row : ℕ → WebhookAttempt → ℕ → WebhookDelivery → WebhookDelivery
failed_row attempts result next d = record d {
  status = if leb webhook_max_attempts attempts then failed else pending;
  attempts = attempts;
  last_status_code = result.status_code;
  last_error = some (note_of result);
  next_attempt_at = if leb webhook_max_attempts attempts then d.next_attempt_at else next;
}

unfoldable pub after_success : World → DueDelivery → BreakerSnapshot → Option ℕ → Outbound → Attempt
after_success w due breaker code s = record {
  store =
      update_endpoint due.endpoint.id (to_breaker_columns (on_success breaker))
        (update_delivery due.row.id (delivered_row (due.row.attempts + 1) code w.wall_clock) s);
  delivered = true;
  breaker = on_success breaker;
  endpoint_disabled = false;
}

unfoldable pub after_gone : DueDelivery → BreakerSnapshot → Outbound → Attempt
after_gone due breaker s = record {
  store = fail_pending_for_endpoint due.endpoint.id backlog_of_gone (
      update_delivery due.row.id (gone_row (due.row.attempts + 1)) (
        update_endpoint due.endpoint.id
          (λ e. record e { status = disabled; disabled_reason = some gone }) s));
  delivered = false;
  breaker = breaker;
  endpoint_disabled = true;
}

unfoldable pub after_failure :
    World → DueDelivery → BreakerSnapshot → WebhookAttempt → ℕ → Outbound → Attempt
after_failure w due breaker result now s =
    let attempts = due.row.attempts + 1 in
    let next =
      now
      + next_delay_ms attempts (seed_from (w.id_units due.row.id) attempts)
          webhook_backoff_base_ms in
    let moved = on_failure breaker now breaker_failure_threshold in
    record {
      store =
          update_endpoint due.endpoint.id (to_breaker_columns moved)
            (update_delivery due.row.id (failed_row attempts result next) s);
      delivered = false;
      breaker = moved;
      endpoint_disabled = false;
    }

unfoldable pub after_closed_secret : DueDelivery → BreakerSnapshot → Outbound → Attempt
after_closed_secret due breaker s = record {
  store =
      update_delivery due.row.id
        (λ d. record d { status = failed; last_error = some undecryptable }) s;
  delivered = false;
  breaker = breaker;
  endpoint_disabled = false;
}

unfoldable pub attempt_delivery : World → DueDelivery → BreakerSnapshot → ℕ → Outbound → Attempt
attempt_delivery w due breaker now s =
    let result = w.send due.row.id due.row.attempts in
    if not (w.opens_secret due.endpoint.id)
    then after_closed_secret due breaker s
    else if is_success result.status_code
    then after_success w due breaker result.status_code s
    else if is_gone result.status_code
    then after_gone due breaker s
    else after_failure w due breaker result now s

pub record Tally : Type 0 where
  pub delivered : ℕ
  pub failed : ℕ
  pub skipped : ℕ

abbrev pub no_tally : Tally
no_tally = record { delivered = 0; failed = 0; skipped = 0 }

abbrev pub skip_one : Tally → Tally
skip_one t = record t { skipped = t.skipped + 1 }

abbrev pub count_attempt : Attempt → Tally → Tally
count_attempt a t =
    if a.delivered
    then record t { delivered = t.delivered + 1 }
    else record t { failed = t.failed + 1 }
