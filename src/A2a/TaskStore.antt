-- ===== src/A2a/TaskStore.antt =====
-- The in-memory task store (crates/agnt-a2a/src/task_store/memory.rs): `State` has the store, its
-- subscribers and its webhooks, `Crud` the operations on tasks, `Listing` the paged lists.
-- A lock is taken for the whole of an operation, so an operation is one step here. Identifiers and
-- the clock are arguments: `Uuid::new_v4()` and `Utc::now()` are what the caller passes.
pub mod State
pub mod Crud
pub mod Listing
pub mod Lifecycle
pub mod Runs
pub mod Cancel
pub mod Notify
pub mod Idempotency
pub mod Sequence
pub mod Pages
