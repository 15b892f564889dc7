-- ===== src/Serve.antt =====
-- crates/grenat_serve: the calendar, and when a schedule is due.
pub mod Calendar
pub mod Cron
mod Tests
