-- ===== src/Qr.antt =====
-- The QR credentials of students, of src/services/qrService.ts. A token is a text, of which only
-- the digest is kept; SHA-256 and the random tokens are parameters.
pub mod Defs
pub mod View
pub mod Appended
pub mod Rows
pub mod Refines
pub mod Tests
