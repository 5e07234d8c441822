-- ===== src/Session.antt =====
-- Logins and their refresh tokens: apps/api/src/services/auth.service.ts on the queries of
-- apps/api/src/repositories/refresh-token.repository.ts.
pub mod Tables
pub mod Token
pub mod Service
pub mod Sessions
pub mod Steps
pub mod Families
pub mod Once
pub mod Keys
pub mod Runs
pub mod Calls
pub mod Replay
mod Examples
