-- ===== src/Reports/Tests.antt =====
-- Runs of the approval of reports, and its theorem at a concrete input.
use offline_qr_school_attend.Common.{ℕ, ◌≡◌, refl, true, none, some, List, [], ◌∷◌, map}
use offline_qr_school_attend.Directory.{UserRole}
use offline_qr_school_attend.Reports.Drafts.{
  DraftParams, Report, ReportDb, ReportStatus, create_report_draft, record_report_artifact,
}
use offline_qr_school_attend.Reports.Defs.{
  approve_report_internally, record_report_download, record_report_export,
}
use offline_qr_school_attend.Reports.Runs.{
  Call, approval, create_draft, export_file, record_artifact, run_calls, run_calls-Follows,
}
use offline_qr_school_attend.Reports.Steps.{Follows}

abbrev file_digest : List ℕ → ℕ
file_digest file = 77

abbrev no_reports : ReportDb
no_reports = record { next_id = 1; reports = []; audit_logs = [] }

abbrev monthly : DraftParams
monthly = record {
  school_id = 1;
  report_type = 2;
  scope_type = 0;
  period_start_date = 20000;
  period_end_date = 20030;
  actor_id = some 6;
}

-- Two versions of a report, of which the second replaces the first.
abbrev two_versions : List Call
two_versions =
    create_draft monthly true 10
    ∷ record_artifact 1 1 77 none
    ∷ approval 1 1 20 6 UserRole.school_admin
    ∷ create_draft monthly true 30
    ∷ approval 1 2 35 6 UserRole.school_admin
    ∷ record_artifact 1 2 88 none
    ∷ approval 1 2 40 6 UserRole.school_admin
    ∷ export_file 1 1 [] none
    ∷ []

abbrev status_of : Report → ReportStatus
status_of r = r.status

two_statuses :
    map status_of (run_calls file_digest two_versions no_reports).reports
    ≡ ReportStatus.superseded ∷ ReportStatus.approved_internally ∷ []
unfolding create_report_draft record_report_artifact approve_report_internally record_report_export
    record_report_download
two_statuses = refl

run_calls-Follows_example : Follows no_reports (run_calls file_digest two_versions no_reports)
run_calls-Follows_example =
    run_calls-Follows file_digest two_versions no_reports
      (record { below = tt; distinct = tt; one_approved = tt; hashed = tt })
