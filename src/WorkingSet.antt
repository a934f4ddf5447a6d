-- ===== src/WorkingSet.antt =====
-- crates/tokenzero-recovery/src/working_set.rs: the prompt-resident working set.
pub mod Delta
pub mod Host
pub mod Paths
pub mod State
pub mod Refs
pub mod Ops
pub mod Admit
pub mod Rehydrate
pub mod Book
mod Tests
