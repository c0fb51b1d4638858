-- ===== src/Transcript.antt =====
-- The transcript of a session: its entries (crates/agnt-core/src/transcript), the rows they take
-- (crates/agnt-render/src/planner.rs), and the store of the terminal interface
-- (crates/agnt-tui/src/state/transcript_store.rs).
pub mod Entry
pub mod Planner
pub mod Index
pub mod Store
