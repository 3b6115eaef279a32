-- ===== src/Registrar.antt =====
-- The registrar, cmd/registrar: it registers a cluster with the cloud and sends heartbeats.
pub mod Settings
pub mod Fingerprint
pub mod Loop
pub mod Rounds
pub mod Backoff
pub mod Protocol
