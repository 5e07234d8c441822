-- ===== src/Sale.antt =====
-- Sales that brands report: `report` of apps/api/src/services/conversion.service.ts, and what it calls,
-- fraud.service.ts and subscription.service.ts of the same folder.
pub mod Tables
pub mod Fraud
pub mod Subscription
pub mod Share
pub mod Report
pub mod Booked
pub mod Effects
pub mod Reported
pub mod Orders
pub mod Affiliates
pub mod Periods
mod Examples
