-- ===== src/Foothread.antt =====
-- Assignment7/foothread.c: a thread library on counting semaphores.
pub mod Mutex
pub mod Barrier
pub mod Exit
mod Tests
