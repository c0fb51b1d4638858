-- ===== src/Turn.antt =====
-- A turn and its retries (crates/agnt-core/src/conversation/turn).
pub mod ErrorKind
pub mod Attempt
pub mod Feedback
pub mod Retry
