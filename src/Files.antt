-- ===== src/Files.antt =====
-- The editing of files by the tools (crates/agnt-core/src/tools/fs/core.rs).
pub mod Replace
pub mod Plan
pub mod Edit
pub mod Arguments
pub mod Handler
