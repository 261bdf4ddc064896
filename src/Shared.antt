-- ===== src/Shared.antt =====
-- The shared crate: shared/src.
pub mod Codes
pub mod Status
pub mod Ticket
pub mod Mac
pub mod KeyStore
pub mod User
pub mod Encryption
pub mod Discovery
mod Tests
