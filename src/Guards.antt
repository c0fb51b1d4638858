-- ===== src/Guards.antt =====
-- The guards that watch a running turn (crates/agnt-core/src/hook).
pub mod DoomLoop
pub mod Repetition
pub mod Canonical
pub mod CircuitBreaker
