-- ===== src/Reports/Defs.antt =====
-- The operations of src/services/reportApprovalService.ts on the table `report_approvals`. The
-- result of the validation, the stored artifact and SHA-256 are parameters.
use offline_qr_school_attend.Common.{
  ℕ, ◌+◌, Bool, false, ◌&&◌, Option, none, some, is_some, List, ◌==◌, find?, if◌then◌else◌,
}
use offline_qr_school_attend.Common.Result.{Result, returns, ◌>>=◌, ◌>>◌, require, or_throw}
use offline_qr_school_attend.Directory.{UserRole, is_admin}
use offline_qr_school_attend.Reports.Drafts.{
  ReportStatus, Report, ReportAction, ReportDb, ReportError, ReportOutcome, is_ready, is_approved,
  is_of_period, is_report, audit, update_reports,
}

-- The approved reports of the period of a report.
abbrev pub is_replaced : ℕ → Report → Report → Bool
is_replaced school current r =
    is_of_period school current.report_type current.period_start_date current.period_end_date r
    && is_approved r.status

abbrev pub supersede : ℕ → ℕ → Report → Report
supersede now actor r = record r {
  status = ReportStatus.superseded;
  superseded_at = some now;
  superseded_by = some actor;
}

abbrev pub approve : ℕ → ℕ → Report → Report
approve now actor r = record r {
  status = ReportStatus.approved_internally;
  approved_by = some actor;
  approved_at = some now;
}

abbrev pub is_ready_report : ℕ → ℕ → Report → Bool
is_ready_report school id r = is_report school id r && is_ready r.status

-- The two updates of an approval.
abbrev pub approve_row : ℕ → ℕ → ℕ → ℕ → Report → ReportDb → ReportDb
approve_row school id now actor current db =
    update_reports (is_ready_report school id) (approve now actor)
      (update_reports (is_replaced school current) (supersede now actor) db)

abbrev pub approve_pending : ℕ → ℕ → ℕ → ℕ → Report → ReportDb → Result ReportError ReportOutcome
approve_pending school id now actor current db = do
  require (is_ready current.status && is_some current.file_hash_sha256)
      ReportError.report_approval_transition_invalid
  updated ←
      or_throw
        (find? (is_ready_report school id)
          (update_reports (is_replaced school current) (supersede now actor) db).reports)
        ReportError.report_approval_conflict
  returns (record {
    db =
        audit (some actor) ReportAction.report_approved_internally school id
          (approve_row school id now actor current db);
    report = approve now actor updated;
  })

unfoldable pub approve_report_internally :
    ℕ → ℕ → ℕ → ℕ → UserRole → ReportDb → Result ReportError ReportOutcome
approve_report_internally school id now actor role db = do
  require (is_admin role) ReportError.report_approval_forbidden
  current ← or_throw (find? (is_report school id) db.reports) ReportError.report_not_found
  (if is_approved current.status
      then returns (record {
        db = audit (some actor) ReportAction.report_approved_internally school id db;
        report = current;
      })
      else approve_pending school id now actor current db)

abbrev pub same_hash : Option ℕ → ℕ → Bool
same_hash none hash = false
same_hash (some h) hash = h == hash

abbrev pub count_download : Report → Report
count_download r = record r { download_count = r.download_count + 1 }

unfoldable pub record_report_download :
    ℕ → ℕ → ℕ → Option ℕ → ReportDb → Result ReportError ReportOutcome
record_report_download school id hash actor db = do
  current ← or_throw (find? (is_report school id) db.reports) ReportError.report_not_found
  require (same_hash current.file_hash_sha256 hash) ReportError.report_artifact_hash_mismatch
  returns (record {
    db =
        audit actor ReportAction.report_downloaded school id
          (update_reports (is_report school id) count_download db);
    report = count_download current;
  })

abbrev pub hash_of_report : Option Report → Option ℕ
hash_of_report none = none
hash_of_report (some r) = r.file_hash_sha256

unfoldable pub record_report_export :
    (List ℕ → ℕ) → ℕ → ℕ → List ℕ → Option ℕ → ReportDb → Result ReportError ReportOutcome
unfolding record_report_download
record_report_export sha256 school id file_buffer actor db = do
  require (is_some (hash_of_report (find? (is_report school id) db.reports)))
      ReportError.report_artifact_must_be_persisted
  record_report_download school id (sha256 file_buffer) actor db
