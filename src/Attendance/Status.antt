-- ===== src/Attendance/Status.antt =====
-- `updateSessionStatus` and `finalizeAttendanceSession`
use offline_qr_school_attend.Common.{
  ℕ, suc, Bool, true, false, ◌&&◌, ◌||◌, not, none, some, List, [], ◌∷◌, ◌++◌, map, ◌==◌, find?,
  filterb, if◌then◌else◌,
}
use offline_qr_school_attend.Common.Result.{Result, throws, returns, ◌>>=◌, ◌>>◌, require, or_throw}
use offline_qr_school_attend.Directory.{Directory, is_admin}
use offline_qr_school_attend.Ingest.Types.{SessionStatus, is_finalized}
use offline_qr_school_attend.Ingest.Epc.{trim}
use offline_qr_school_attend.Notifications.Absence.{
  Clock, JobError, create_absence_notification_jobs, is_session, is_empty,
}
use offline_qr_school_attend.Attendance.Access.{verify_teacher_assignment}
use offline_qr_school_attend.Attendance.Types.{Failure, StatusParams}
use offline_qr_school_attend.Store.{
  AttendanceStatus, Session, AttendanceRecord, EventType, AttendanceEvent, AuditAction, Database,
}

abbrev pub is_reopened : SessionStatus → Bool
is_reopened SessionStatus.reopened = true
is_reopened _ = false

abbrev pub is_unmarked : AttendanceStatus → Bool
is_unmarked AttendanceStatus.unmarked = true
is_unmarked _ = false

-- `!reason || reason.trim().length === 0`
abbrev pub is_blank : List ℕ → Bool
is_blank reason = is_empty (trim reason)

-- The guards of the state machine.
abbrev pub check_transition : StatusParams → SessionStatus → Result Failure (Unit {0})
check_transition p current = do
  require (not (is_finalized current) || is_reopened p.new_status) Failure.finalized_session_locked
  require (not (is_reopened p.new_status) || is_admin p.user_role)
      Failure.reopen_requires_admin_role
  require (not (is_reopened p.new_status) || not (is_blank p.reason)) Failure.reopen_reason_required

abbrev pub is_unmarked_in : ℕ → ℕ → AttendanceRecord → Bool
is_unmarked_in school session r =
    r.school_id == school && (r.attendance_session_id == session && is_unmarked r.status)

abbrev pub auto_absent_event : StatusParams → ℕ → ℕ → AttendanceRecord → AttendanceEvent
auto_absent_event p now id r = record {
  school_id = p.school_id;
  client_event_id = id;
  attendance_session_id = p.session_id;
  student_id = r.student_id;
  event_type = EventType.finalization_auto_absent;
  status_value = AttendanceStatus.absent;
  client_timestamp = now;
  actor_id = some p.actor_id;
  actor_reader_id = none;
}

-- One event for each unmarked record, under an identifier of its own.
unfoldable pub log_auto_absent : StatusParams → ℕ → List AttendanceRecord → Database → Database
log_auto_absent p now [] db = db
log_auto_absent p now (r ∷ rs) db = log_auto_absent p now rs (record db {
  next_id = suc db.next_id;
  events = db.events ++ auto_absent_event p now db.next_id r ∷ [];
})

abbrev pub mark_record_absent : ℕ → ℕ → ℕ → AttendanceRecord → AttendanceRecord
mark_record_absent school session now r =
    if is_unmarked_in school session r
    then record r { status = AttendanceStatus.absent; last_updated_at = now }
    else r

unfoldable pub mark_unmarked_absent : StatusParams → ℕ → Database → Database
unfolding log_auto_absent
mark_unmarked_absent p now db =
    let logged =
      log_auto_absent p now (filterb (is_unmarked_in p.school_id p.session_id) db.records) db in
    record logged { records = map (mark_record_absent p.school_id p.session_id now) logged.records }

abbrev pub finalize_records : StatusParams → ℕ → Database → Database
finalize_records p now db =
    if is_finalized p.new_status && p.auto_mark_absent_for_unmarked
    then mark_unmarked_absent p now db
    else db

abbrev pub with_status : StatusParams → ℕ → Session → Session
with_status p now s =
    if is_finalized p.new_status
    then record s { status = p.new_status; finalized_at = some now; finalized_by = some p.actor_id }
    else record s { status = p.new_status }

abbrev pub set_status : StatusParams → ℕ → Session → Session
set_status p now s = if is_session p.school_id p.session_id s then with_status p now s else s

-- The session and the audit log, after the records.
unfoldable pub store_status : StatusParams → ℕ → Database → Database
unfolding mark_unmarked_absent
store_status p now db =
    let marked = finalize_records p now db in
    record marked {
      sessions = map (set_status p now) marked.sessions;
      audit_logs =
          marked.audit_logs
          ++ record {
            school_id = p.school_id;
            actor_id = p.actor_id;
            action = AuditAction.session_status p.new_status;
            resource_id = p.session_id;
          }
            ∷ [];
    }

abbrev pub lift_job_error : Result JobError Database → Result Failure Database
lift_job_error (throws e) = throws (Failure.job_error e)
lift_job_error (returns db) = returns db

abbrev pub notify_absences : Clock → Directory → StatusParams → Database → Result Failure Database
notify_absences clock dir p db =
    if is_finalized p.new_status
    then lift_job_error (create_absence_notification_jobs clock dir p.school_id p.session_id db)
    else returns db

unfoldable pub update_session_status :
    Clock → Directory → StatusParams → Database → Result Failure Database
unfolding store_status create_absence_notification_jobs trim
update_session_status clock dir p db = do
  session ←
      or_throw (find? (is_session p.school_id p.session_id) db.sessions) Failure.session_not_found
  verify_teacher_assignment dir p.school_id session.class_section_id p.actor_id p.user_role
  check_transition p session.status
  notify_absences clock dir p (store_status p clock.now db)

-- `finalizeAttendanceSession`
unfoldable pub finalize_attendance_session :
    Clock → Directory → StatusParams → Database → Result Failure Database
unfolding update_session_status
finalize_attendance_session clock dir p db =
    update_session_status clock dir (record p { new_status = SessionStatus.finalized }) db
