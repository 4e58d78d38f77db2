-- ===== src/Jobs.antt =====
-- Assignment2/mgr.c: a manager that runs one job at a time in the foreground.
pub mod Processes
pub mod Manager
mod Tests
