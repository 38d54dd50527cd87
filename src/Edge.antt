-- ===== src/Edge.antt =====
-- The edge crate: the coordinator beside the doors and machines.
pub mod Modules
pub mod Power
pub mod Resources
pub mod ToolGuard
