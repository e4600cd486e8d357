-- ===== src/Distributed.antt =====
-- The models of the distributed systems textbook: ordered replication, Raft's commit rule, and
-- retries under a request ID.
pub mod Replication
pub mod Raft
pub mod Dedup
mod Tests
