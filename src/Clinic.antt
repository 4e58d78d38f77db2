-- ===== src/Clinic.antt =====
-- Assignment6: the visitors of a doctor, as threads that an assistant starts from a queue of events.
pub mod Queue
pub mod Session
pub mod Clock
mod Tests
