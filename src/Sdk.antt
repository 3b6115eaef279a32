-- ===== src/Sdk.antt =====
-- The Go client of the control plane, sdk/controlplane.
pub mod Types
pub mod Convert
pub mod Objects
pub mod Client
pub mod Trips
pub mod Answers
