-- ===== src/Examples.antt =====
-- The theorems at concrete inputs.
mod Data
mod Actions
mod Fleet
mod Snapshot
mod GameServer
mod ControlPlane
mod Builder
mod Keys
mod Oidc
mod Registrar
mod Console
mod Sdk
mod Agent
mod Rcon
mod Tenant
mod Webhook
mod Handlers
