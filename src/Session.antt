-- ===== src/Session.antt =====
-- What a session keeps of a turn (crates/agnt-core/src/session).
pub mod Repair
