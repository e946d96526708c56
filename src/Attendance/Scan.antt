-- ===== src/Attendance/Scan.antt =====
-- `processQRCode`
use text.Mathlib.Text.{◌==◌ as str_eq}
use offline_qr_school_attend.Common.{
  ℕ, Bool, true, false, ◌&&◌, ◌||◌, not, Option, none, some, List, ◌==◌, find?, anyb, or_else,
  if◌then◌else◌,
}
use offline_qr_school_attend.Common.Result.{Result, returns, ◌>>=◌, ◌>>◌, require, or_throw}
use offline_qr_school_attend.Directory.{Directory, Student, QrCredential}
use offline_qr_school_attend.Ingest.Types.{is_finalized}
use offline_qr_school_attend.Notifications.Absence.{is_session, is_empty}
use offline_qr_school_attend.Notifications.Jobs.{on_attendance_corrected}
use offline_qr_school_attend.Attendance.Access.{verify_teacher_assignment}
use offline_qr_school_attend.Attendance.Tables.{
  is_school_record, is_on_roster, insert_event, insert_event_directly, insert_record,
  default_record, update_by_id, same_status, has_event_id,
}
use offline_qr_school_attend.Attendance.Types.{Failure, ScanParams, ScanSource, ScanResponse}
use offline_qr_school_attend.Store.{
  AttendanceStatus, CaptureMethod, AttendanceRecord, EventType, AttendanceEvent, Database,
}

abbrev pub is_manual_source : ScanSource → Bool
is_manual_source ScanSource.manual = true
is_manual_source _ = false

abbrev pub scan_event_type : ScanSource → EventType
scan_event_type ScanSource.usb = EventType.usb_barcode_scanned
scan_event_type _ = EventType.qr_scanned

-- The event of this session and school with the identifier of the call.
abbrev pub is_same_event : ScanParams → AttendanceEvent → Bool
is_same_event p e =
    e.school_id == p.school_id
    && (e.attendance_session_id == p.session_id && has_event_id p.client_event_id e)

abbrev pub is_present_or_late : AttendanceStatus → Bool
is_present_or_late AttendanceStatus.present = true
is_present_or_late AttendanceStatus.late = true
is_present_or_late _ = false

abbrev pub is_present : AttendanceStatus → Bool
is_present AttendanceStatus.present = true
is_present _ = false

abbrev pub is_student_of : ℕ → ℕ → Student → Bool
is_student_of school student s = s.school_id == school && s.id == student

-- The hash of a token.
module _ (sha256 : List ℕ → ℕ) (dir : Directory) where
  abbrev pub is_credential_of : List ℕ → QrCredential → Bool
  is_credential_of token c = c.token_digest == sha256 token

  -- The student of the credential that the token proves.
  abbrev pub resolve_token : ScanParams → Result Failure ℕ
  resolve_token p = do
    c ← or_throw (find? (is_credential_of p.raw_token) dir.qr_credentials) Failure.invalid_qr_token
    require (c.school_id == p.school_id) Failure.wrong_school_qr
    require (not (str_eq c.status "REVOKED")) Failure.revoked_qr_token
    returns c.student_id

  abbrev pub resolve_student : ScanParams → Result Failure ℕ
  resolve_student p =
      if is_empty p.raw_token
      then or_throw p.student_id Failure.missing_student_identifier
      else resolve_token p

  -- The guards of step 3 and 4, and the student whose mark it is.
  abbrev pub scan_target : ScanParams → Database → Result Failure ℕ
  scan_target p db = do
    require (not (is_empty p.raw_token) || is_manual_source p.source) Failure.missing_qr_proof
    student ← resolve_student p
    require (anyb (is_on_roster p.session_id student) db.roster) Failure.student_not_in_roster
    require (anyb (is_student_of p.school_id student) dir.students) Failure.student_not_found
    returns student

abbrev pub scan_log : ScanParams → ℕ → ℕ → EventType → AttendanceStatus → AttendanceEvent
scan_log p now student type status = record {
  school_id = p.school_id;
  client_event_id = p.client_event_id;
  attendance_session_id = p.session_id;
  student_id = student;
  event_type = type;
  status_value = status;
  client_timestamp = time p.client_timestamp;
  actor_id = p.actor_id;
  actor_reader_id = none;
}
  where
    time : Option ℕ → ℕ
    time none = now
    time (some at) = at

pub record Scanned : Type 0 where
  pub db : Database
  pub response : ScanResponse

-- A student who is marked already: the attempt is logged, and nothing else.
abbrev pub log_duplicate : ScanParams → ℕ → ℕ → AttendanceRecord → Database → Result Failure Scanned
log_duplicate p now student r db = do
  logged ← insert_event_directly (scan_log p now student EventType.duplicate_qr_scanned r.status) db
  returns (record { db = logged; response = ScanResponse.duplicate_scan r })

abbrev pub marked_record : ScanParams → ℕ → AttendanceRecord → AttendanceRecord
marked_record p now r = record r {
  status = p.status_value;
  first_scanned_at = or_else r.first_scanned_at (some now);
  last_updated_at = now;
}

abbrev pub update_mark : ScanParams → ℕ → ℕ → AttendanceRecord → Database → Database
update_mark p now student r db =
    let marked = record db { records = update_by_id r.id (marked_record p now) db.records } in
    if same_status r.status p.status_value
    then marked
    else on_attendance_corrected now r.id p.school_id student r.status p.status_value marked

-- Step 6: the event, and the mark that it projects, in one transaction.
abbrev pub mark_existing : ScanParams → ℕ → ℕ → AttendanceRecord → Database → Result Failure Scanned
mark_existing p now student r db = do
  logged ← insert_event (scan_log p now student (scan_event_type p.source) p.status_value) db
  returns (record {
    db = update_mark p now student r logged;
    response = ScanResponse.scanned (marked_record p now r);
  })

abbrev pub scan_record : ScanParams → ℕ → ℕ → ℕ → AttendanceRecord
scan_record p now student id =
    default_record p.school_id p.session_id student p.status_value (some now) now CaptureMethod.qr
      id

abbrev pub mark_new : ScanParams → ℕ → ℕ → Database → Result Failure Scanned
mark_new p now student db = do
  logged ← insert_event (scan_log p now student (scan_event_type p.source) p.status_value) db
  marked ← insert_record (scan_record p now student) logged
  returns (record {
    db = marked;
    response = ScanResponse.scanned (scan_record p now student logged.next_id);
  })

abbrev pub write_mark :
    ScanParams → ℕ → ℕ → Option AttendanceRecord → Database → Result Failure Scanned
write_mark p now student none db = mark_new p now student db
write_mark p now student (some r) db =
    if is_present_or_late r.status && is_present p.status_value
    then log_duplicate p now student r db
    else mark_existing p now student r db

abbrev pub record_of_student : ScanParams → ℕ → Database → Option AttendanceRecord
record_of_student p student db =
    find? (is_school_record p.school_id p.session_id student) db.records

module _ (sha256 : List ℕ → ℕ) (dir : Directory) where
  -- A call whose event is new.
  abbrev pub scan_new : ScanParams → ℕ → Bool → Database → Result Failure Scanned
  scan_new p now locked db = do
    require (not locked) Failure.finalized_session_locked
    student ← scan_target sha256 dir p db
    write_mark p now student (record_of_student p student db) db

  -- A call whose event was processed before answers from the tables.
  abbrev pub scan_once :
      ScanParams → ℕ → Bool → Option AttendanceEvent → Database → Result Failure Scanned
  scan_once p now locked (some e) db = returns (record {
    db = db;
    response = ScanResponse.idempotent_duplicate e (record_of_student p e.student_id db);
  })
  scan_once p now locked none db = scan_new p now locked db

  -- `processQRCode`
  unfoldable pub process_qr_code : ScanParams → ℕ → Database → Result Failure Scanned
  unfolding on_attendance_corrected
  process_qr_code p now db = do
    role ← or_throw p.user_role Failure.unauthorized_actor_context
    actor ← or_throw p.actor_id Failure.unauthorized_actor_context
    session ←
        or_throw (find? (is_session p.school_id p.session_id) db.sessions) Failure.session_not_found
    verify_teacher_assignment dir p.school_id session.class_section_id actor role
    scan_once p now (is_finalized session.status) (find? (is_same_event p) db.events) db
