-- ===== src/Money.antt =====
-- The money arithmetic of packages/analytics: payout-math.ts, refund-math.ts, commission-calc.ts,
-- resolve-commission.ts and attribution.ts. Stored amounts are whole cents (`Decimal(n, 2)`); what
-- the source computes in doubles is an exact fraction here, rounded where the source rounds.
pub mod Fee
pub mod Refund
pub mod Commission
pub mod Tiers
pub mod Attribution
mod Examples
