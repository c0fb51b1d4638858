-- ===== src/Authz.antt =====
-- The permission policy of tool calls (crates/agnt-core/src/tools/authz.rs).
pub mod Glob
pub mod Policy
pub mod Overlay
pub mod Choice
pub mod Grants
pub mod Evaluation
