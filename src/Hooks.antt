-- ===== src/Hooks.antt =====
-- The hook chain of a turn (crates/agnt-core/src/hook/chain.rs) with the concerns that it owns.
pub mod Events
pub mod SubturnCap
pub mod TurnTools
pub mod TurnUsage
pub mod Registry
pub mod State
pub mod Chain
pub mod Responses
pub mod Completion
