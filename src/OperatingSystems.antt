-- ===== src/OperatingSystems.antt =====
-- learning/operating-systems/examples: interleavings of two threads, CPU scheduling, and
-- address translation.
pub mod Race
pub mod Translation
pub mod Scheduler
mod Tests
