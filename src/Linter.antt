-- ===== src/Linter.antt =====
-- The shared linters (packages/shared/src/linter).
pub mod Issue
pub mod Unreachable
mod Tests
pub mod Duplicates
pub mod Placement
