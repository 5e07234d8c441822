-- ===== src/Webhook/Examples.antt =====
-- The theorems on deliveries at a concrete outbox.
use build_affiliate.Common.{ℕ, refl, ◌+◌, ◌≤◌, true, none, some, [], ◌∷◌, arith}
use build_affiliate.Breaker.{closed}
use build_affiliate.Webhook.Tables.{
  WebhookEndpoint, WebhookDelivery, DeliveryStatus, pending, failed, active, conversion_approved,
  of_payout,
}
use build_affiliate.Webhook.Delivery.{World, Outbound, DueDelivery, breaker_of}
use build_affiliate.Webhook.Drain.{deliver_due, drain_from, first_turn}
use build_affiliate.Webhook.Drain.Budget.{AllBudgeted, deliver_due-AllBudgeted}
use build_affiliate.Webhook.Drain.Failing.{AlwaysFails, failures_bounded}

-- Every request ends with a 500.
abbrev broken : World
broken = record {
  opens_secret = λ e. true;
  send = λ id n. record { status_code = some 500; error = none };
  id_units = λ id. id ∷ [];
  wall_clock = 1000;
}

broken-AlwaysFails : AlwaysFails broken
broken-AlwaysFails = record {
  opens = λ e. refl;
  no_success = λ id n. refl;
  not_gone = λ id n. refl;
}

abbrev endpoint : WebhookEndpoint
endpoint = record {
  id = 4;
  brand_id = 9;
  event_types = conversion_approved ∷ [];
  status = active;
  disabled_reason = none;
  breaker_state = closed;
  consecutive_failures = 3;
  breaker_opened_at = none;
}

abbrev delivery : ℕ → DeliveryStatus → ℕ → WebhookDelivery
delivery id status attempts = record {
  id = id;
  endpoint_id = 4;
  event_type = conversion_approved;
  payload = of_payout (record {
    payout_id = 1;
    affiliate_id = 7;
    paid_at = none;
    commission_count = 1;
    amount = 100;
  });
  status = status;
  attempts = attempts;
  next_attempt_at = 10;
  last_status_code = none;
  last_error = none;
  delivered_at = none;
}

abbrev outbox : Outbound
outbox = record {
  endpoints = endpoint ∷ [];
  deliveries = delivery 1 pending 5 ∷ delivery 2 failed 6 ∷ delivery 3 pending 0 ∷ [];
}

outbox-AllBudgeted : AllBudgeted outbox
outbox-AllBudgeted = ground arith

deliver_due-AllBudgeted_example : AllBudgeted (deliver_due broken 20 50 outbox).store
deliver_due-AllBudgeted_example = deliver_due-AllBudgeted broken 20 50 outbox outbox-AllBudgeted

abbrev replayed : Outbound
replayed = record outbox {
  deliveries =
      delivery 1 pending 5
      ∷ record (delivery 2 pending 0) { next_attempt_at = 30 }
      ∷ delivery 3 pending 0
      ∷ [];
}

abbrev due : ℕ → DueDelivery
due id = record { row = delivery id pending 0; endpoint = endpoint }

failures_bounded_example :
    (drain_from broken 20
        (first_turn (due 1) outbox)
        (due 1 ∷ due 3 ∷ due 5 ∷ due 6 ∷ [])).tally.failed
      + 3
    ≤ 0 + 5
unfolding breaker_of
failures_bounded_example =
    failures_bounded broken 20 (first_turn (due 1) outbox) (due 1 ∷ due 3 ∷ due 5 ∷ due 6 ∷ [])
      broken-AlwaysFails refl refl (omega arith)
