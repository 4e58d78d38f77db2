-- ===== src/Paging.antt =====
-- Assignment8: demand paging with one page table for each process, local LRU replacement, and a
-- scheduler that runs one process at a time.
pub mod Table
pub mod Mmu
pub mod Frames
pub mod Loops
pub mod Victim
pub mod Invariant
pub mod Steps
pub mod Outcomes
pub mod References
pub mod Requests
pub mod Residency
pub mod Master
pub mod Arguments
pub mod Results
pub mod System
mod Tests
