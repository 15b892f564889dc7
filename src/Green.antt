-- ===== src/Green.antt =====
-- crates/grenat_green: locks, condition variables and channels of green tasks, and their scheduler.
pub mod Put
pub mod Waiters
pub mod Sync
pub mod Channel
pub mod Scheduler
