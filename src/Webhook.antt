-- ===== src/Webhook.antt =====
-- Outbound webhooks: apps/api/src/services/webhook.service.ts and its repository.
pub mod Tables
pub mod Enqueue
pub mod Backoff
pub mod Delivery
pub mod Drain
mod Examples
