-- ===== src/Offline.antt =====
-- Work without a connection, src/services/offlineSyncService.ts.
pub mod Events
pub mod Outbox
pub mod Retries
pub mod Flush
mod Tests
