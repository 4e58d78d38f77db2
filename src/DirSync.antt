-- ===== src/DirSync.antt =====
-- Assignment9/main.c: the copy of one directory tree over another.
pub mod Tree
pub mod Passes
pub mod First
pub mod Second
pub mod Mirror
mod Tests
