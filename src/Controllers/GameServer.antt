-- ===== src/Controllers/GameServer.antt =====
-- The GameServer controller, internal/controllers/gameserver_controller.go and sftp.go.
pub mod Model
pub mod Ports
pub mod Resources
pub mod Status
pub mod Secrets
pub mod Agent
pub mod Monitor
pub mod Steps
pub mod Loop
pub mod Service
pub mod Idle
pub mod Released
pub mod Quiet
pub mod Replicas
