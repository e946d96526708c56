-- ===== src/Notifications.antt =====
-- The SMS jobs of absent students.
pub mod Jobs
pub mod Absence
pub mod Inserted
pub mod Created
pub mod Consent
pub mod Cancelled
pub mod Sms
pub mod Segments
pub mod Redaction
pub mod SmsTests
pub mod Privacy
pub mod Withdrawn
