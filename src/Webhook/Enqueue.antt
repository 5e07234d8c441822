-- ===== src/Webhook/Enqueue.antt =====
-- `enqueueWebhookEvent` of apps/api/src/services/webhook.service.ts: one delivery row for each active
-- endpoint of the brand that is subscribed to the event.
use build_affiliate.Common.{
  ℕ, ◌≡◌, refl, Bool, true, false, none, List, [], ◌∷◌, any, filter, length, ◌==◌, ◌&&◌, suc,
}
use build_affiliate.Webhook.Tables.{
  WebhookEventType, conversion_approved, conversion_reversed, payout_completed, EndpointStatus,
  active, WebhookEndpoint, WebhookDelivery, WebhookPayload, DeliveryStatus,
}

abbrev pub same_event : WebhookEventType → WebhookEventType → Bool
same_event conversion_approved conversion_approved = true
same_event conversion_reversed conversion_reversed = true
same_event payout_completed payout_completed = true
same_event _ _ = false

abbrev pub is_active : EndpointStatus → Bool
is_active active = true
is_active _ = false

-- The `where` clause of the query.
unfoldable pub wants_event : ℕ → WebhookEventType → WebhookEndpoint → Bool
wants_event brand_id event e =
    e.brand_id == brand_id && is_active e.status && any (same_event event) e.event_types

-- The rows that the loop creates, with ids from `next_id` on. `attempts` is 0 and `nextAttemptAt` is
-- the time of creation by the columns' defaults.
unfoldable pub new_deliveries :
    ℕ → ℕ → WebhookEventType → WebhookPayload → List WebhookEndpoint → List WebhookDelivery
new_deliveries next_id now event payload [] = []
new_deliveries next_id now event payload (e ∷ es) =
    record {
      id = next_id;
      endpoint_id = e.id;
      event_type = event;
      payload = payload;
      status = DeliveryStatus.pending;
      attempts = 0;
      next_attempt_at = now;
      last_status_code = none;
      last_error = none;
      delivered_at = none;
    }
    ∷ new_deliveries (suc next_id) now event payload es

-- The endpoints that are told of an event.
unfoldable pub subscribers : ℕ → WebhookEventType → List WebhookEndpoint → List WebhookEndpoint
unfolding wants_event
subscribers brand_id event endpoints = filter (wants_event brand_id event) endpoints

pub length-new_deliveries :
    (next_id now : ℕ) (event : WebhookEventType) (payload : WebhookPayload)
    (es : List WebhookEndpoint)
    → length (new_deliveries next_id now event payload es) ≡ length es
unfolding new_deliveries
length-new_deliveries n t v p [] = refl
length-new_deliveries n t v p (e ∷ es) = λ i. suc (length-new_deliveries (suc n) t v p es i)
