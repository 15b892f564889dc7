-- ===== src/Limits.antt =====
-- crates/grenat_limits: rate limits shared by the tasks of a process.
pub mod Rate
pub mod Bucket
pub mod Slots
pub mod Limiter
mod Tests
