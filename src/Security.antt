-- ===== src/Security.antt =====
-- The models of the security textbook.
pub mod Nonce
pub mod Integrity
pub mod Authorization
mod Tests
