-- ===== src/Vault.antt =====
-- Keeping secrets out of drafts and snapshots (apps/server/src/vault).
pub mod Mask
pub mod Key
pub mod Unmask
pub mod Store
mod Tests
