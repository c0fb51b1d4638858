-- ===== src/Tui.antt =====
-- The state of the terminal interface (crates/agnt-tui/src/state).
pub mod Selection
pub mod Picker
pub mod Scroll
pub mod PromptQueue
pub mod InputHistory
