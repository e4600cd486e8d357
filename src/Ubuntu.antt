-- ===== src/Ubuntu.antt =====
-- The models of the Ubuntu internals textbook.
pub mod Ring
pub mod Cgroup
pub mod Memory
mod Tests
