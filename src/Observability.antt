-- ===== src/Observability.antt =====
-- The offline demonstration of the data pipelines textbook.
pub mod Validate
pub mod Replay
mod Tests
