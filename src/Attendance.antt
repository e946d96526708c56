-- ===== src/Attendance.antt =====
-- src/services/attendanceService.ts: sessions, scans and marks.
pub mod Types
pub mod Access
pub mod Tables
pub mod Sessions
pub mod Status
pub mod Scan
pub mod Manual
pub mod StatusTables
pub mod Transitions
pub mod AutoAbsent
pub mod Effects
pub mod Corrections
pub mod Unchanged
pub mod ScanLog
pub mod ScanOnce
pub mod ScanProof
pub mod Unique
pub mod Kept
pub mod Invariant
pub mod ManualMarks
pub mod Reachable
mod Tests
