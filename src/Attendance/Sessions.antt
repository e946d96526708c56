-- ===== src/Attendance/Sessions.antt =====
-- `createAttendanceSession`
use text.Mathlib.Text.{◌==◌ as str_eq}
use offline_qr_school_attend.Common.{
  ℕ, suc, Bool, true, false, ◌&&◌, ◌||◌, not, Option, none, some, List, [], ◌∷◌, ◌++◌, map, ◌==◌,
  anyb, find?, filterb, elem,
}
use offline_qr_school_attend.Common.Result.{Result, returns, ◌>>◌, require}
use offline_qr_school_attend.Directory.{Directory, Student, Enrollment}
use offline_qr_school_attend.Ingest.Types.{SessionStatus}
use offline_qr_school_attend.Attendance.Access.{verify_teacher_assignment}
use offline_qr_school_attend.Attendance.Tables.{default_record}
use offline_qr_school_attend.Attendance.Types.{Failure, SessionParams}
use offline_qr_school_attend.Store.{
  AttendanceStatus, CaptureMethod, Session, RosterEntry, AttendanceRecord, AuditAction, Database,
}

-- The unique key of attendance_sessions.
abbrev pub is_session_of : SessionParams → Session → Bool
is_session_of p s =
    s.school_id == p.school_id
    && (s.class_section_id == p.class_section_id
        && (s.session_date == p.session_date && str_eq s.session_type p.session_type))

abbrev pub open_session : SessionParams → ℕ → Session
open_session p id = record {
  id = id;
  school_id = p.school_id;
  class_section_id = p.class_section_id;
  teacher_id = p.teacher_id;
  session_date = p.session_date;
  session_type = p.session_type;
  status = SessionStatus.opened;
  finalized_at = none;
  finalized_by = none;
}

abbrev pub is_active_student : ℕ → Student → Bool
is_active_student student s = s.id == student && str_eq s.status "ACTIVE"

abbrev pub is_active_enrollment : Directory → ℕ → ℕ → Enrollment → Bool
is_active_enrollment dir school section e =
    e.school_id == school
    && (e.class_section_id == section
        && (str_eq e.status "ACTIVE" && anyb (is_active_student e.student_id) dir.students))

unfoldable pub active_enrollments : Directory → ℕ → ℕ → List Enrollment
active_enrollments dir school section =
    filterb (is_active_enrollment dir school section) dir.enrollments

-- The unique key of the roster admits a student once.
abbrev pub has_repeats : List ℕ → Bool
has_repeats [] = false
has_repeats (x ∷ xs) = elem x xs || has_repeats xs

abbrev pub enrolled_student : Enrollment → ℕ
enrolled_student e = e.student_id

abbrev pub roster_entry : ℕ → Enrollment → RosterEntry
roster_entry session e = record {
  attendance_session_id = session;
  student_id = e.student_id;
  enrollment_id = e.id;
}

-- The UNMARKED records of a new session, with identifiers from `id` on.
unfoldable pub unmarked_records : ℕ → ℕ → ℕ → ℕ → List Enrollment → List AttendanceRecord
unmarked_records school session now id [] = []
unmarked_records school session now id (e ∷ es) =
    default_record school session e.student_id AttendanceStatus.unmarked none now CaptureMethod.qr
      id
    ∷ unmarked_records school session now (suc id) es

unfoldable pub after_rows : ℕ → List Enrollment → ℕ
after_rows id [] = id
after_rows id (e ∷ es) = after_rows (suc id) es

-- What the transaction leaves: the session, its roster, its records and the entry of the audit log.
unfoldable pub insert_new_session : SessionParams → ℕ → List Enrollment → Database → Database
unfolding unmarked_records after_rows
insert_new_session p now es db =
    let id = db.next_id in
    record db {
      next_id = after_rows (suc id) es;
      sessions = db.sessions ++ open_session p id ∷ [];
      roster = db.roster ++ map (roster_entry id) es;
      records = db.records ++ unmarked_records p.school_id id now (suc id) es;
      audit_logs =
          db.audit_logs
          ++ record {
            school_id = p.school_id;
            actor_id = p.actor_id;
            action = AuditAction.create_attendance_session;
            resource_id = id;
          }
            ∷ [];
    }

pub record CreatedSession : Type 0 where
  pub db : Database
  pub session : Session
  pub is_new : Bool

abbrev pub create_or_return :
    Directory → SessionParams → ℕ → Option Session → Database → Result Failure CreatedSession
create_or_return dir p now (some s) db = returns (record { db = db; session = s; is_new = false })
create_or_return dir p now none db =
    let es = active_enrollments dir p.school_id p.class_section_id in
    do
      require (not (has_repeats (map enrolled_student es))) Failure.unique_violation
      returns (record {
        db = insert_new_session p now es db;
        session = open_session p db.next_id;
        is_new = true;
      })

unfoldable pub create_attendance_session :
    Directory → SessionParams → ℕ → Database → Result Failure CreatedSession
unfolding active_enrollments insert_new_session
create_attendance_session dir p now db = do
  verify_teacher_assignment dir p.school_id p.class_section_id p.actor_id p.user_role
  create_or_return dir p now (find? (is_session_of p) db.sessions) db
