-- ===== src/Worker.antt =====
-- The queue worker of src/services/notificationWorker.ts, which sends the SMS jobs.
pub mod Types
pub mod Claim
pub mod Guards
pub mod Process
pub mod Queue
pub mod Checked
pub mod Sent
pub mod Settled
pub mod Balance
pub mod Distinct
pub mod Claims
pub mod Passing
pub mod Unheld
pub mod Tests
