-- ===== src/Ingest/Records.antt =====
-- What an ingest batch does to the attendance records.
pub mod Upserts
