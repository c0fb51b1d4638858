-- ===== src/A2a.antt =====
-- The agent-to-agent server's tasks (crates/agnt-a2a/src): their states and the in-memory store.
pub mod TaskState
pub mod Types
pub mod TaskStore
