-- ===== src/Attendance/Manual.antt =====
-- `manualStatusUpdate`, statement by statement: it opens no transaction of its own, so the database
-- that a call leaves holds what it wrote before an error, and the transaction of the request, where
-- there is one, takes that back.
use offline_qr_school_attend.Common.{
  ℕ, Bool, ◌||◌, not, Option, none, some, [], ◌∷◌, ◌++◌, find?, anyb, if◌then◌else◌,
}
use offline_qr_school_attend.Common.Result.{Result, throws, returns, ◌>>=◌, ◌>>◌, require, or_throw}
use offline_qr_school_attend.Directory.{Directory, is_admin}
use offline_qr_school_attend.Ingest.Epc.{trim}
use offline_qr_school_attend.Ingest.Types.{is_finalized}
use offline_qr_school_attend.Notifications.Absence.{is_session, is_empty}
use offline_qr_school_attend.Notifications.Jobs.{on_attendance_corrected}
use offline_qr_school_attend.Attendance.Access.{verify_teacher_assignment}
use offline_qr_school_attend.Attendance.Status.{is_blank}
use offline_qr_school_attend.Attendance.Tables.{
  is_school_record, is_record_id, is_on_roster, insert_event, insert_record, default_record,
  update_by_id, same_status,
}
use offline_qr_school_attend.Attendance.Types.{Failure, ManualParams}
use offline_qr_school_attend.Store.{
  AttendanceStatus, CaptureMethod, AttendanceRecord, EventType, AttendanceEvent, Correction,
  Database,
}

-- The guards on a session that is final.
abbrev pub check_correction : ManualParams → Bool → Result Failure (Unit {0})
check_correction p locked = do
  require (not locked || is_admin p.user_role) Failure.finalized_session_locked
  require (not locked || not (is_blank p.reason)) Failure.correction_reason_required

-- By `recordId` where it is given, else by `studentId`.
abbrev pub find_record : ManualParams → Option ℕ → Option ℕ → Database → Option AttendanceRecord
find_record p (some id) student db = find? (is_record_id p.school_id p.session_id id) db.records
find_record p none (some student) db =
    find? (is_school_record p.school_id p.session_id student) db.records
find_record p none none db = none

abbrev pub manual_correction : ManualParams → ℕ → AttendanceStatus → Correction
manual_correction p record_id previous = record {
  attendance_record_id = record_id;
  previous_status = previous;
  new_status = p.new_status;
  reason = p.reason;
  corrected_by = p.actor_id;
}

abbrev pub insert_correction : ManualParams → ℕ → AttendanceStatus → Database → Database
insert_correction p record_id previous db = record db {
  corrections = db.corrections ++ manual_correction p record_id previous ∷ [];
}

abbrev pub manual_event : ManualParams → ℕ → ℕ → AttendanceEvent
manual_event p now student = record {
  school_id = p.school_id;
  client_event_id = p.client_event_id;
  attendance_session_id = p.session_id;
  student_id = student;
  event_type = EventType.manual_status_change;
  status_value = p.new_status;
  client_timestamp = now;
  actor_id = some p.actor_id;
  actor_reader_id = none;
}

-- The database after the call, and what the call gives.
pub record Corrected : Type 0 where
  pub db : Database
  pub result : Result Failure AttendanceRecord

abbrev pub fails : Failure → Database → Corrected
fails e db = record { db = db; result = throws e }

-- The statements after an insert that may fail.
abbrev pub after : Result Failure Database → Database → (Database → Corrected) → Corrected
after (throws e) db k = fails e db
after (returns db') db k = k db'

abbrev pub manual_record : ManualParams → ℕ → ℕ → ℕ → AttendanceRecord
manual_record p now student id =
    default_record p.school_id p.session_id student p.new_status (some now) now CaptureMethod.manual
      id

-- A student of the roster who has no record: one is made.
abbrev pub mark_unrecorded : ManualParams → ℕ → ℕ → Database → Corrected
mark_unrecorded p now student db =
    let r = manual_record p now student db.next_id in
    after (insert_record (manual_record p now student) db) db λ inserted.
      let corrected =
        if is_empty p.reason
        then inserted
        else insert_correction p r.id AttendanceStatus.unmarked inserted in
      after (insert_event (manual_event p now student) corrected) corrected
        λ logged. record { db = logged; result = returns r }

abbrev pub without_record : ManualParams → ℕ → Option ℕ → Database → Corrected
without_record p now none db = fails Failure.attendance_record_not_found db
without_record p now (some student) db =
    if anyb (is_on_roster p.session_id student) db.roster
    then mark_unrecorded p now student db
    else fails Failure.student_not_in_session_roster db

abbrev pub manual_mark : ManualParams → ℕ → AttendanceRecord → AttendanceRecord
manual_mark p now r = record r {
  status = p.new_status;
  capture_method = CaptureMethod.manual;
  last_updated_at = now;
}

abbrev pub change_mark : ManualParams → ℕ → Bool → AttendanceRecord → Database → Corrected
change_mark p now locked r db =
    let corrected =
      if locked || not (is_empty p.reason) then insert_correction p r.id r.status db else db in
    after (insert_event (manual_event p now r.student_id) corrected) corrected λ logged. record {
      db =
          on_attendance_corrected now r.id p.school_id r.student_id r.status p.new_status
            (record logged { records = update_by_id r.id (manual_mark p now) logged.records });
      result = returns (manual_mark p now r);
    }

abbrev pub with_record : ManualParams → ℕ → Bool → Option AttendanceRecord → Database → Corrected
with_record p now locked none db = without_record p now p.student_id db
with_record p now locked (some r) db =
    if same_status r.status p.new_status
    then record { db = db; result = returns r }
    else change_mark p now locked r db

-- The checks before the record is looked up, and whether the session is final.
unfoldable pub check_manual : Directory → ManualParams → Database → Result Failure Bool
unfolding trim
check_manual dir p db = do
  session ←
      or_throw (find? (is_session p.school_id p.session_id) db.sessions) Failure.session_not_found
  verify_teacher_assignment dir p.school_id session.class_section_id p.actor_id p.user_role
  check_correction p (is_finalized session.status)
  returns (is_finalized session.status)

abbrev pub after_checks : ManualParams → ℕ → Result Failure Bool → Database → Corrected
after_checks p now (throws e) db = fails e db
after_checks p now (returns locked) db =
    with_record p now locked (find_record p p.record_id p.student_id db) db

-- `manualStatusUpdate`
unfoldable pub manual_status_update : Directory → ManualParams → ℕ → Database → Corrected
unfolding check_manual on_attendance_corrected
manual_status_update dir p now db = after_checks p now (check_manual dir p db) db
