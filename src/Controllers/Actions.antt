-- ===== src/Controllers/Actions.antt =====
-- ActionExecutionReconciler and its cleanup task.
pub mod Model
pub mod Loop
pub mod Lifecycle
pub mod Checks
pub mod Cleanup
pub mod Completion
