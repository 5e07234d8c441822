-- ===== src/Idempotency.antt =====
-- Idempotency keys: apps/api/src/plugins/idempotency.ts and apps/api/src/lib/fingerprint.ts.
pub mod Fingerprint
pub mod Reorder
pub mod Plugin
pub mod Held
pub mod Retry
pub mod Answers
mod Examples
