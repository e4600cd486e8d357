-- ===== src/Databases.antt =====
-- The models of the databases textbook: redo recovery from a write-ahead log, snapshot
-- visibility, and the estimates of a join.
pub mod Wal
pub mod Mvcc
pub mod JoinCost
mod Tests
