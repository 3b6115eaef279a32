-- ===== src/Controllers/Builder.antt =====
-- The pod builder, internal/controllers/builder.
pub mod Model
pub mod Environment
pub mod Sftp
pub mod Pod
pub mod Merged
pub mod Mounts
