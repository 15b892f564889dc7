-- ===== src/Watch.antt =====
-- crates/grenat_watch: which files a watch looks at, and when it hands them over.
pub mod Glob
mod Tests
mod Runs
pub mod Settle
