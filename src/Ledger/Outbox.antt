-- ===== src/Ledger/Outbox.antt =====
-- Rows that the services enqueue in the caller's transaction: `enqueueNotification` of
-- notification.service.ts, and `enqueueWebhookEvent` of webhook.service.ts on the store.
use build_affiliate.Common.{ℕ, ◌+◌, [], ◌∷◌, ◌++◌, length}
use build_affiliate.Webhook.Tables.{WebhookEventType, WebhookPayload}
use build_affiliate.Webhook.Enqueue.{new_deliveries, subscribers}
use build_affiliate.Ledger.Tables.{Store, Notification}

unfoldable pub enqueue_notification : Notification → Store → Store
enqueue_notification n s = record s { notifications = s.notifications ++ n ∷ [] }

unfoldable pub enqueue_webhook_event : ℕ → ℕ → WebhookEventType → WebhookPayload → Store → Store
enqueue_webhook_event now brand_id event payload s =
    let told = subscribers brand_id event s.endpoints in
    record s {
      deliveries = s.deliveries ++ new_deliveries s.next_id now event payload told;
      next_id = s.next_id + length told;
    }
