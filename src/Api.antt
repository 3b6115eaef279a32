-- ===== src/Api.antt =====
-- The custom resources of api/operator/v1.
pub mod Meta
pub mod GameServer
pub mod GameProfile
pub mod ActionExecution
pub mod GameSnapshot
pub mod Fleet
