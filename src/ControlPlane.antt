-- ===== src/ControlPlane.antt =====
-- The control plane's access control, internal/controlplane.
pub mod Namespaces
pub mod Rules
pub mod Guards
pub mod Scopes
pub mod Access
pub mod Roles
pub mod Permissions
pub mod Resources
pub mod Keys
pub mod Oidc
pub mod Providers
pub mod Chain
pub mod Loading
pub mod Stored
pub mod Blank
pub mod Chained
pub mod Open
pub mod Verified
