-- ===== src/Deploy.antt =====
-- Deploying a draft (apps/server/src/deploy).
pub mod Retention
mod Tests
pub mod Sentinels
pub mod Effects
pub mod Pipeline
pub mod Snapshots
pub mod Healthcheck
