-- ===== src/Reports.antt =====
-- The approval of reports, of src/services/reportApprovalService.ts.
pub mod Drafts
pub mod Defs
pub mod Tables
pub mod Approved
pub mod Moves
pub mod Steps
pub mod Updates
pub mod Runs
pub mod Tests
