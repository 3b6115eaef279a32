-- ===== src/Controllers.antt =====
-- The reconcilers of internal/controllers.
pub mod Conditions
pub mod Deletions
pub mod Builder
pub mod Actions
pub mod Fleet
pub mod Snapshot
pub mod GameServer
