-- ===== src/Lifecycle.antt =====
-- The two state machines of packages/analytics: a campaign's (campaign-lifecycle.ts) and a
-- payout's (payout-lifecycle.ts).
pub mod Campaign
pub mod Payout
pub mod Walks
