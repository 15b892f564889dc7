-- ===== src/Package.antt =====
-- crates/grenat_package: what a version is and what a requirement allows.
pub mod Version
pub mod Tests
