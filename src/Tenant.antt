-- ===== src/Tenant.antt =====
-- The hardening of tenant namespaces, internal/controlplane/tenant/tenant.go.
pub mod Config
pub mod Policy
pub mod Provision
pub mod Loaded
pub mod Admission
pub mod Hardened
pub mod Panics
pub mod Interrupted
