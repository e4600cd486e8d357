-- ===== src/Storage.antt =====
-- kubernetes/storage/data-systems-foundations/examples: the ordering of durable writes.
pub mod Durability
pub mod Payload
pub mod DirectorySync
mod Tests
