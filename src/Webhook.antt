-- ===== src/Webhook.antt =====
-- The admission webhooks, internal/webhook.
pub mod GameProfile
pub mod GameServer
pub mod Checks
pub mod Tiers
pub mod Accepted
