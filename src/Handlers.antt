-- ===== src/Handlers.antt =====
-- The handlers of the control plane, cmd/controlplane/main.go.
pub mod Model
pub mod Servers
pub mod Details
pub mod Fleets
pub mod Keys
pub mod Changes
pub mod Console
pub mod Frames
