-- ===== src/Reports/Runs.antt =====
-- Runs of calls on the reports.
use mathlib.Core.Path.{subst}
use offline_qr_school_attend.Common.{
  ℕ, ◌≡◌, refl, sym, Bool, true, false, ◌&&◌, not, Option, some, is_some, List, [], ◌∷◌, find?,
  arith, inl, inr, Bool-cases, if◌then◌else◌,
}
use offline_qr_school_attend.Common.Result.{
  Result, throws, returns, or_throw-returns, require-returns, Result-cases,
}
use offline_qr_school_attend.Directory.{UserRole, is_admin}
use offline_qr_school_attend.Reports.Drafts.{
  DraftParams, Report, ReportAction, ReportDb, ReportError, ReportOutcome, attach, audit,
  create_report_draft, is_approved, is_ready, is_report, is_validated, record_report_artifact,
  update_reports,
}
use offline_qr_school_attend.Reports.Defs.{
  approve_pending, approve_report_internally, count_download, hash_of_report, is_ready_report,
  is_replaced, record_report_download, record_report_export, same_hash, supersede,
}
use offline_qr_school_attend.Reports.Moves.{attach-Moves, count_download-Moves}
use offline_qr_school_attend.Reports.Steps.{Follows, audit-Follows, found-Follows}
use offline_qr_school_attend.Reports.Updates.{approve_row-Follows, insert_draft-Follows, stays}
use offline_qr_school_attend.Reports.Tables.{Extends-trans, WellFormed}

find?-holds : (q : Report → Bool) (rs : List Report) (r : Report) → find? q rs ≡ some r → q r ≡ true
find?-holds q [] r h = absurd (cc)
find?-holds q (x ∷ xs) r h = ground (arith, find?-holds q xs r)

-- What a call leaves where it succeeds.
abbrev Leaves : ReportDb → Result ReportError ReportOutcome → Type 0
Leaves db m = (o : ReportOutcome) → m ≡ returns o → Follows db o.db

returned :
    (db : ReportDb) (x o : ReportOutcome)
    → (let m : Result ReportError ReportOutcome = returns x in m ≡ returns o)
    → Follows db x.db
    → Follows db o.db
returned db x o e h = subst (λ (y : ReportOutcome). Follows db y.db) (same x o e) h
  where
    same :
        (y z : ReportOutcome)
        → (let m : Result ReportError ReportOutcome = returns y in m ≡ returns z)
        → y ≡ z
    same y z q = cc

create_report_draft-Leaves :
    (p : DraftParams) (is_valid : Bool) (now : ℕ) (db : ReportDb)
    → WellFormed db
    → Leaves db (create_report_draft p is_valid now db)
unfolding create_report_draft
create_report_draft-Leaves p is_valid now db w o h =
    let (valid, h1) = require-returns is_valid _ _ _ h in
    returned db _ o h1 (insert_draft-Follows p now db w)

of_not : (b : Bool) → not b ≡ true → b ≡ false
of_not true h = cc
of_not false h = refl

record_report_artifact-Leaves :
    (school id hash : ℕ) (actor : Option ℕ) (db : ReportDb)
    → WellFormed db
    → Leaves db (record_report_artifact school id hash actor db)
unfolding record_report_artifact
record_report_artifact-Leaves school id hash actor db w o h =
    let (current, found, h1) = or_throw-returns (find? (is_report school id) db.reports) _ _ _ h in
    let (bare, h2) = require-returns (not (is_some current.file_hash_sha256)) _ _ _ h1 in
    let (valid, h3) = require-returns (is_validated current.status) _ _ _ h2 in
    returned db _ o h3 (
      audit-Follows actor ReportAction.report_artifact_created school id db _ (
        found-Follows school id (attach hash) current db found
          (attach-Moves hash current (of_not _ bare) valid) w))

record_report_download-Leaves :
    (school id hash : ℕ) (actor : Option ℕ) (db : ReportDb)
    → WellFormed db
    → Leaves db (record_report_download school id hash actor db)
unfolding record_report_download
record_report_download-Leaves school id hash actor db w o h =
    let (current, found, h1) = or_throw-returns (find? (is_report school id) db.reports) _ _ _ h in
    let (same, h2) = require-returns (same_hash current.file_hash_sha256 hash) _ _ _ h1 in
    returned db _ o h2 (
      audit-Follows actor ReportAction.report_downloaded school id db _
        (found-Follows school id count_download current db found (count_download-Moves current) w))

record_report_export-Leaves :
    (sha256 : List ℕ → ℕ) (school id : ℕ) (file : List ℕ) (actor : Option ℕ) (db : ReportDb)
    → WellFormed db
    → Leaves db (record_report_export sha256 school id file actor db)
unfolding record_report_export
record_report_export-Leaves sha256 school id file actor db w o h =
    let persisted = is_some (hash_of_report (find? (is_report school id) db.reports)) in
    let (kept, h1) = require-returns persisted _ _ _ h in
    record_report_download-Leaves school id (sha256 file) actor db w o h1

approve_pending-Leaves :
    (school id now actor : ℕ) (current : Report) (db : ReportDb)
    → find? (is_report school id) db.reports ≡ some current
    → WellFormed db
    → Leaves db (approve_pending school id now actor current db)
approve_pending-Leaves school id now actor current db found w o h =
    let ready = is_ready current.status && is_some current.file_hash_sha256 in
    let (may, h1) = require-returns ready _ _ _ h in
    let (updated, there, h2) =
      or_throw-returns
        (find? (is_ready_report school id)
          (update_reports (is_replaced school current) (supersede now actor) db).reports)
        _ _ _ h1 in
    let same : current.school_id ≡ school =
      ground (arith, find?-holds (is_report school id) db.reports current found) in
    returned db _ o h2 (
      audit-Follows (some actor) ReportAction.report_approved_internally school id db _
        (approve_row-Follows school id now actor current db found same w))

approve_report_internally-Leaves :
    (school id now actor : ℕ) (role : UserRole) (db : ReportDb)
    → WellFormed db
    → Leaves db (approve_report_internally school id now actor role db)
unfolding approve_report_internally
approve_report_internally-Leaves school id now actor role db w o h =
    let (admin, h1) = require-returns (is_admin role) _ _ _ h in
    let (current, found, h2) = or_throw-returns (find? (is_report school id) db.reports) _ _ _ h1 in
    let existing : ReportOutcome = record {
      db = audit (some actor) ReportAction.report_approved_internally school id db;
      report = current;
    } in
    let branches = λ (b : Bool).
      (if b then returns existing else approve_pending school id now actor current db)
      ≡ returns o in
    elim (Bool-cases (is_approved current.status)) [
      | inl again ↦ returned db existing o (subst branches again h2) (
          audit-Follows (some actor) ReportAction.report_approved_internally school id db db
            (stays db w))
      | inr pending ↦
          approve_pending-Leaves school id now actor current db found w o
            (subst branches pending h2)
    ]

-- The calls of the service.
pub data Call : Type 0 where
  create_draft : DraftParams → Bool → (now : ℕ) → Call
  record_artifact : (school id hash : ℕ) → Option ℕ → Call
  approval : (school id now actor : ℕ) → UserRole → Call
  download : (school id hash : ℕ) → Option ℕ → Call
  export_file : (school id : ℕ) → List ℕ → Option ℕ → Call

module _ (sha256 : List ℕ → ℕ) where
  abbrev pub run_call : Call → ReportDb → Result ReportError ReportOutcome
  run_call (create_draft p is_valid now) db = create_report_draft p is_valid now db
  run_call (record_artifact school id hash actor) db =
      record_report_artifact school id hash actor db
  run_call (approval school id now actor role) db =
      approve_report_internally school id now actor role db
  run_call (download school id hash actor) db = record_report_download school id hash actor db
  run_call (export_file school id file actor) db =
      record_report_export sha256 school id file actor db

  abbrev pub db_after : ReportDb → Result ReportError ReportOutcome → ReportDb
  db_after db (throws e) = db
  db_after db (returns o) = o.db

  -- A run of calls, of which those that throw change nothing.
  abbrev pub run_calls : List Call → ReportDb → ReportDb
  run_calls [] db = db
  run_calls (c ∷ cs) db = run_calls cs (db_after db (run_call c db))

  run_call-Leaves : (c : Call) (db : ReportDb) → WellFormed db → Leaves db (run_call c db)
  run_call-Leaves (create_draft p is_valid now) db w =
      create_report_draft-Leaves p is_valid now db w
  run_call-Leaves (record_artifact school id hash actor) db w =
      record_report_artifact-Leaves school id hash actor db w
  run_call-Leaves (approval school id now actor role) db w =
      approve_report_internally-Leaves school id now actor role db w
  run_call-Leaves (download school id hash actor) db w =
      record_report_download-Leaves school id hash actor db w
  run_call-Leaves (export_file school id file actor) db w =
      record_report_export-Leaves sha256 school id file actor db w

  run_call-Follows :
      (c : Call) (db : ReportDb) → WellFormed db → Follows db (db_after db (run_call c db))
  run_call-Follows c db w = elim (Result-cases (run_call c db)) [
    | inl (e, thrown) ↦ subst (λ m. Follows db (db_after db m)) (sym thrown) (stays db w)
    | inr (o, done) ↦
        subst (λ m. Follows db (db_after db m)) (sym done) (run_call-Leaves c db w o done)
  ]

  -- After any calls on a well-formed table, whether they succeed or throw, the identifiers are distinct
  -- and below the next one, each type and period of a school has at most one approved report, and a report has an artifact exactly from its review on;
  -- every report from before is still there, as the same version of the same type and period, with
  -- the artifact that it had, and no earlier in its course from validated over ready for review and
  -- approved to superseded.
  pub run_calls-Follows :
      (cs : List Call) (db : ReportDb) → WellFormed db → Follows db (run_calls cs db)
  run_calls-Follows [] db w = stays db w
  run_calls-Follows (c ∷ cs) db w =
      let first = run_call-Follows c db w in
      let rest = run_calls-Follows cs (db_after db (run_call c db)) first.well_formed in
      record {
        well_formed = rest.well_formed;
        extends = Extends-trans db.reports _ _ first.extends rest.extends;
      }
