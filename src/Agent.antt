-- ===== src/Agent.antt =====
-- The actions of the agent SDK, sdk/agent/actions.
pub mod Catalog
pub mod Steps
pub mod Order
