-- ===== src/Reports/Drafts.antt =====
-- The reports of src/services/reportApprovalService.ts: their table, their drafts and their artifacts.
use offline_qr_school_attend.Common.{
  ℕ, suc, Bool, true, false, ◌&&◌, not, Option, none, some, is_some, List, [], ◌∷◌, ◌++◌, map, ◌==◌,
  ltb, find?, if◌then◌else◌,
}
use offline_qr_school_attend.Common.Result.{Result, returns, ◌>>=◌, ◌>>◌, require, or_throw}

pub data ReportStatus : Type 0 where
  draft validated ready_for_review approved_internally exported superseded : ReportStatus

pub record Report : Type 0 where
  pub id : ℕ
  pub school_id : ℕ
  pub report_type : ℕ
  pub scope_type : ℕ
  pub period_start_date : ℕ
  pub period_end_date : ℕ
  pub report_version : ℕ
  pub status : ReportStatus
  pub file_hash_sha256 : Option ℕ
  pub generated_by : Option ℕ
  pub generated_at : ℕ
  pub approved_by : Option ℕ
  pub approved_at : Option ℕ
  pub download_count : ℕ
  pub superseded_at : Option ℕ
  pub superseded_by : Option ℕ

pub data ReportAction : Type 0 where
  report_draft_created report_artifact_created report_approved_internally : ReportAction
  report_downloaded : ReportAction

pub record ReportAudit : Type 0 where
  pub school_id : ℕ
  pub actor_id : ℕ
  pub action : ReportAction
  pub resource_id : ℕ

pub record ReportDb : Type 0 where
  pub next_id : ℕ
  pub reports : List Report
  pub audit_logs : List ReportAudit

pub data ReportError : Type 0 where
  report_validation_blocked report_not_found report_artifact_already_attached : ReportError
  report_artifact_transition_invalid report_approval_forbidden : ReportError
  report_approval_transition_invalid report_approval_conflict : ReportError
  report_artifact_hash_mismatch report_artifact_must_be_persisted : ReportError

pub record ReportOutcome : Type 0 where
  pub db : ReportDb
  pub report : Report

abbrev pub is_validated : ReportStatus → Bool
is_validated ReportStatus.validated = true
is_validated _ = false

abbrev pub is_ready : ReportStatus → Bool
is_ready ReportStatus.ready_for_review = true
is_ready _ = false

abbrev pub is_approved : ReportStatus → Bool
is_approved ReportStatus.approved_internally = true
is_approved _ = false

-- One type and period of a school: what versions are counted in, and what an approval replaces.
abbrev pub is_of_period : ℕ → ℕ → ℕ → ℕ → Report → Bool
is_of_period school type start last r =
    r.school_id == school
    && (r.report_type == type && (r.period_start_date == start && r.period_end_date == last))

abbrev pub is_report : ℕ → ℕ → Report → Bool
is_report school id r = r.id == id && r.school_id == school

abbrev pub audit : Option ℕ → ReportAction → ℕ → ℕ → ReportDb → ReportDb
audit none action school id db = db
audit (some actor) action school id db = record db {
  audit_logs =
      db.audit_logs
      ++ record { school_id = school; actor_id = actor; action = action; resource_id = id } ∷ [];
}

pub record DraftParams : Type 0 where
  pub school_id : ℕ
  pub report_type : ℕ
  pub scope_type : ℕ
  pub period_start_date : ℕ
  pub period_end_date : ℕ
  pub actor_id : Option ℕ

-- The largest version of the period, 0 where there is none.
abbrev pub latest_report : (Report → Bool) → List Report → ℕ
latest_report q [] = 0
latest_report q (r ∷ rs) =
    let rest = latest_report q rs in
    if q r && ltb rest r.report_version then r.report_version else rest

abbrev pub draft_of : DraftParams → ℕ → ℕ → ℕ → Report
draft_of p now id version = record {
  id = id;
  school_id = p.school_id;
  report_type = p.report_type;
  scope_type = p.scope_type;
  period_start_date = p.period_start_date;
  period_end_date = p.period_end_date;
  report_version = version;
  status = ReportStatus.validated;
  file_hash_sha256 = none;
  generated_by = p.actor_id;
  generated_at = now;
  approved_by = none;
  approved_at = none;
  download_count = 0;
  superseded_at = none;
  superseded_by = none;
}

abbrev pub draft_period : DraftParams → Report → Bool
draft_period p r = is_of_period p.school_id p.report_type p.period_start_date p.period_end_date r

abbrev pub insert_draft : DraftParams → ℕ → ReportDb → ReportOutcome
insert_draft p now db =
    let r = draft_of p now db.next_id (suc (latest_report (draft_period p) db.reports)) in
    record {
      db =
          audit p.actor_id ReportAction.report_draft_created p.school_id r.id
            (record db { next_id = suc db.next_id; reports = db.reports ++ r ∷ [] });
      report = r;
    }

unfoldable pub create_report_draft :
    DraftParams → Bool → ℕ → ReportDb → Result ReportError ReportOutcome
create_report_draft p is_valid now db = do
  require is_valid ReportError.report_validation_blocked
  returns (insert_draft p now db)

-- `update … where id and school_id`, with the row it returns.
abbrev pub update_report_if : (Report → Bool) → (Report → Report) → Report → Report
update_report_if q f r = if q r then f r else r

abbrev pub update_reports : (Report → Bool) → (Report → Report) → ReportDb → ReportDb
update_reports q f db = record db { reports = map (update_report_if q f) db.reports }

abbrev pub attach : ℕ → Report → Report
attach hash r = record r { file_hash_sha256 = some hash; status = ReportStatus.ready_for_review }

unfoldable pub record_report_artifact :
    ℕ → ℕ → ℕ → Option ℕ → ReportDb → Result ReportError ReportOutcome
record_report_artifact school id hash actor db = do
  current ← or_throw (find? (is_report school id) db.reports) ReportError.report_not_found
  require (not (is_some current.file_hash_sha256)) ReportError.report_artifact_already_attached
  require (is_validated current.status) ReportError.report_artifact_transition_invalid
  returns (record {
    db =
        audit actor ReportAction.report_artifact_created school id
          (update_reports (is_report school id) (attach hash) db);
    report = attach hash current;
  })
