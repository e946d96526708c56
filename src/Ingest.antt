-- ===== src/Ingest.antt =====
-- The RFID ingest pipeline, src/services/rfid/ingest/.
pub mod Types
pub mod Freshness
pub mod Decide
pub mod Payload
pub mod Epc
pub mod Normalize
pub mod Dedupe
pub mod Write
pub mod Batch
pub mod Total
pub mod Answers
pub mod Records
pub mod ScanKeys
pub mod ScanLog
mod Tests
