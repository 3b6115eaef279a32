-- ===== src/Rcon.antt =====
-- The RCON clients of the agent SDK, sdk/agent/rcon.
pub mod Wire
pub mod Clients
pub mod RoundTrip
pub mod Login
pub mod Players
pub mod LoginPacket
