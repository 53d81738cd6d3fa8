-- ===== src/Cycle.antt =====
-- One cycle of the program (src/main.rs: run_cycle and what it calls).
pub mod Seeds
pub mod Assemble
pub mod Refresh
pub mod Snapshot
pub mod Finish
