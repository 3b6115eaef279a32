-- ===== src/Controllers/Snapshot.antt =====
-- The GameSnapshot controller, internal/controllers/gamesnapshot_controller.go.
pub mod Model
pub mod Volume
pub mod Retention
pub mod Taking
pub mod Loop
pub mod Kept
pub mod Schedule
pub mod Recording
