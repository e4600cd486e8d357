-- ===== src/ComputerArchitecture.antt =====
-- learning/computer-architecture/examples: the fields of a cache address, a pipeline,
-- and store buffering.
pub mod Cache
pub mod Pipeline
pub mod MemoryOrder
mod Tests
