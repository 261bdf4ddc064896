-- ===== src/Custodian.antt =====
-- The custodian service: custodian/src.
pub mod Types
pub mod Locks
pub mod Machine
pub mod Storage
pub mod Snapshot
pub mod RaftLog
pub mod RaftService
pub mod Server
pub mod Wire
pub mod DbClient
pub mod Sample
mod Tests
