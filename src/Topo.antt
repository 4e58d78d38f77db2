-- ===== src/Topo.antt =====
-- Assignment5: a boss and its workers sort the vertices of a graph by semaphores.
pub mod Graph
pub mod Generator
pub mod System
pub mod Log
pub mod Invariant
pub mod Moves
pub mod Writing
pub mod Steps
pub mod Setup
pub mod Safety
pub mod Progress
pub mod Termination
mod Tests
