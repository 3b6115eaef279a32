-- ===== src/Controllers/Fleet.antt =====
-- GameServerFleetReconciler, internal/controllers/gameserverfleet_controller.go.
pub mod Model
pub mod Template
pub mod Selection
pub mod Status
pub mod Loop
mod Order
pub mod Deletion
pub mod Rollout
pub mod Scaling
pub mod Finalizer
pub mod Readiness
pub mod Replicas
pub mod Collision
