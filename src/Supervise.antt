-- ===== src/Supervise.antt =====
-- internal/supervise: the process table, the reaper, the init ledger and garbage collection.
pub mod Keys
pub mod Manager
pub mod Reap
pub mod Collect
pub mod Init
