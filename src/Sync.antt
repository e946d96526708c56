-- ===== src/Sync.antt =====
-- The server's side of the synchronisation, src/services/syncService.ts, and the devices of
-- src/services/deviceService.ts that it lets in.
pub mod Types
pub mod Devices
pub mod Sessions
pub mod Events
pub mod Answered
pub mod Batch
pub mod Known
pub mod Reconciles
pub mod Payloads
pub mod Mapped
pub mod Later
pub mod Replay
pub mod Rerun
pub mod Resend
pub mod Invariant
pub mod Roster
mod Tests
