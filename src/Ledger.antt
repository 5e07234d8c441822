-- ===== src/Ledger.antt =====
-- The money of the platform: conversions, commissions, payouts and balance adjustments, and the
-- operations of payout.service.ts, conversion.service.ts and lock-expiry.worker.ts on them.
pub mod Tables
pub mod Rows
pub mod Outbox
pub mod Request
pub mod Transition
pub mod Faults
pub mod Review
pub mod Reverse
pub mod Promote
mod Examples
