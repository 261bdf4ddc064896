-- ===== src/Db.antt =====
-- The database service: db/src.
pub mod Types
pub mod Storage
pub mod Tickets
pub mod Users
pub mod Query
pub mod Machine
pub mod RaftLog
pub mod Server
pub mod Snapshot
pub mod Sample
mod Tests
