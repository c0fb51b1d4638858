-- ===== src/Examples.antt =====
-- The theorems at concrete inputs.
mod Tasks
mod Policy
mod Guarded
mod Interface
mod Saved
mod Shown
mod Hooked
mod Picked
mod Edited
