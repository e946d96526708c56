-- ===== src/Attendance/Tests.antt =====
-- Runs of the attendance service and of its notifications, and the theorems at concrete inputs.
use offline_qr_school_attend.Common.{
  find?, ℕ, ◌*◌, ◌+◌, ◌≡◌, ◌↔◌, ◌⊎◌, refl, true, false, none, some, List, [], ◌∷◌, map, All, anyb,
  filterb, length,
}
use offline_qr_school_attend.Common.Result.{Result, throws, returns}
use offline_qr_school_attend.Directory.{Directory, UserRole, is_admin}
use offline_qr_school_attend.Ingest.Types.{SessionStatus}
use offline_qr_school_attend.Notifications.Absence.{
  Clock, JobError, create_absence_notification_jobs, guardian_map, absent_in, settings_or_default,
}
use offline_qr_school_attend.Notifications.Jobs.{is_cancellable, on_attendance_corrected}
use offline_qr_school_attend.Notifications.Inserted.{HasDistinctJobs}
use offline_qr_school_attend.Notifications.Created.{
  IsCovered, create_absence_notification_jobs-once,
}
use offline_qr_school_attend.Notifications.Consent.{
  IsLawful, create_absence_notification_jobs-IsLawful,
}
use offline_qr_school_attend.Notifications.Cancelled.{on_attendance_corrected-cancelled}
use offline_qr_school_attend.Attendance.AutoAbsent.{finalize_attendance_session-unmarked}
use offline_qr_school_attend.Attendance.Corrections.{IsCorrected, manual_status_update-final}
use offline_qr_school_attend.Attendance.Manual.{manual_status_update}
use offline_qr_school_attend.Attendance.Scan.{
  is_same_event, process_qr_code, Scanned, record_of_student,
}
use offline_qr_school_attend.Attendance.ScanOnce.{
  IsOfCall, LoggedBy, answered_again, process_qr_code-again, process_qr_code-final,
}
use offline_qr_school_attend.Attendance.ScanLog.{Logs}
use offline_qr_school_attend.Attendance.ScanProof.{Proven, process_qr_code-proof}
use offline_qr_school_attend.Attendance.Reachable.{
  stay, next, created, scanned, Reachable-WellFormed,
}
use offline_qr_school_attend.Attendance.Sessions.{create_attendance_session, CreatedSession}
use offline_qr_school_attend.Attendance.Status.{
  update_session_status, finalize_attendance_session, is_unmarked_in, is_blank,
}
use offline_qr_school_attend.Attendance.Transitions.{Allowed, update_session_status_iff}
use offline_qr_school_attend.Attendance.Effects.{Updated, update_session_status-Updated}
use offline_qr_school_attend.Attendance.Types.{
  Failure, SessionParams, StatusParams, ScanParams, ScanSource, ScanResponse, ManualParams,
}
use offline_qr_school_attend.Attendance.Unique.{WellFormed}
use offline_qr_school_attend.Store.{
  Session, CaptureMethod, Database, AttendanceRecord, AttendanceEvent, AttendanceStatus,
}

abbrev empty : Database
empty = record {
  next_id = 100;
  sessions = [];
  roster = [];
  records = [];
  events = [];
  corrections = [];
  scan_events = [];
  jobs = [];
  audit_logs = [];
}

abbrev token_hash : List ℕ → ℕ
token_hash [] = 7
token_hash (c ∷ s) = c + 31 * token_hash s

-- Teacher 5 has section 3 with the students 21 and 22; student 21 has a card and a guardian.
abbrev directory : Directory
directory = record {
  teacher_assignments = record { school_id = 1; teacher_id = 5; class_section_id = 3 } ∷ [];
  students =
      record { id = 21; school_id = 1; status = "ACTIVE" }
      ∷ record { id = 22; school_id = 1; status = "ACTIVE" }
      ∷ [];
  enrollments =
      record { id = 31; school_id = 1; student_id = 21; class_section_id = 3; status = "ACTIVE" }
      ∷ record { id = 32; school_id = 1; student_id = 22; class_section_id = 3; status = "ACTIVE" }
      ∷ [];
  qr_credentials =
      record {
        school_id = 1;
        student_id = 21;
        token_digest = token_hash (9 ∷ []);
        status = "ACTIVE";
      }
      ∷ [];
  guardians =
      record {
        school_id = 1;
        student_id = 22;
        is_primary = true;
        phone_number = b'9' ∷ b'8' ∷ [];
        sms_opt_out = false;
      }
      ∷ [];
  sms_settings = λ school. none;
}

abbrev day : SessionParams
day = record {
  school_id = 1;
  class_section_id = 3;
  teacher_id = 5;
  session_date = 20000;
  session_type = "DAILY";
  actor_id = 5;
  user_role = UserRole.teacher;
}

abbrev session_db : Result Failure CreatedSession → Database
session_db (throws e) = empty
session_db (returns c) = c.db

abbrev status_db : Result Failure Database → Database
status_db (throws e) = empty
status_db (returns db) = db

abbrev scan_db : Result Failure Scanned → Database
scan_db (throws e) = empty
scan_db (returns s) = s.db

abbrev mark_of : AttendanceRecord → AttendanceStatus
mark_of r = r.status

opened :
    map mark_of (session_db (create_attendance_session directory day 10 empty)).records
    ≡ AttendanceStatus.unmarked ∷ AttendanceStatus.unmarked ∷ []
unfolding create_attendance_session
opened = refl

-- The session of the day, as it is created.
abbrev morning : Database
unfolding create_attendance_session
morning = session_db (create_attendance_session directory day 10 empty)

abbrev clock : Clock
clock = record { now = 50; delay_minutes = 20 }

abbrev scan_21 : ScanParams
scan_21 = record {
  school_id = 1;
  session_id = 100;
  actor_id = some 5;
  user_role = some UserRole.teacher;
  client_event_id = 900;
  raw_token = 9 ∷ [];
  student_id = none;
  status_value = AttendanceStatus.present;
  client_timestamp = some 40;
  source = ScanSource.camera;
}

abbrev after_scan : Database
unfolding process_qr_code
after_scan = scan_db (process_qr_code token_hash directory scan_21 45 morning)

scan_marks :
    map mark_of after_scan.records ≡ AttendanceStatus.present ∷ AttendanceStatus.unmarked ∷ []
unfolding after_scan morning
scan_marks = refl

abbrev finalize : StatusParams
finalize = record {
  school_id = 1;
  session_id = 100;
  actor_id = 5;
  user_role = UserRole.teacher;
  new_status = SessionStatus.finalized;
  reason = [];
  auto_mark_absent_for_unmarked = true;
}

abbrev closed : Database
unfolding update_session_status
closed = status_db (update_session_status clock directory finalize after_scan)

finalized_marks :
    map mark_of closed.records ≡ AttendanceStatus.present ∷ AttendanceStatus.absent ∷ []
unfolding closed after_scan morning
finalized_marks = refl

one_job : length closed.jobs ≡ 1
unfolding closed after_scan morning
one_job = refl

finalizes : update_session_status clock directory finalize after_scan ≡ returns closed
unfolding closed after_scan morning
finalizes = refl

-- A correction of the final session.
abbrev correct_22 : ManualParams
correct_22 = record {
  school_id = 1;
  session_id = 100;
  record_id = none;
  student_id = some 22;
  new_status = AttendanceStatus.leave;
  reason = b'i' ∷ b'l' ∷ b'l' ∷ [];
  actor_id = 6;
  user_role = UserRole.school_admin;
  client_event_id = 901;
}

update_session_status_iff_example :
    ((db' : Database) × (update_session_status clock directory finalize after_scan ≡ returns db'))
    ↔ Allowed directory finalize after_scan
update_session_status_iff_example = update_session_status_iff clock directory finalize after_scan

update_session_status-Updated_example : Updated finalize after_scan closed
update_session_status-Updated_example =
    update_session_status-Updated clock directory finalize after_scan closed finalizes

finalize_attendance_session-unmarked_example :
    All (λ r. is_unmarked_in 1 100 r ≡ false) closed.records
unfolding finalize_attendance_session
finalize_attendance_session-unmarked_example =
    finalize_attendance_session-unmarked clock directory finalize after_scan closed refl finalizes

abbrev scanned_or : Scanned → Result Failure Scanned → Scanned
scanned_or d (throws e) = d
scanned_or d (returns s) = s

abbrev nothing : Scanned
nothing = record {
  db = empty;
  response = ScanResponse.scanned (record {
    id = 0;
    school_id = 0;
    attendance_session_id = 0;
    student_id = 0;
    status = AttendanceStatus.unmarked;
    first_scanned_at = none;
    last_updated_at = 0;
    capture_method = CaptureMethod.qr;
    source = none;
    first_seen_at = none;
    last_seen_at = none;
    review_reason = none;
  });
}

abbrev first_scan : Scanned
unfolding process_qr_code
first_scan = scanned_or nothing (process_qr_code token_hash directory scan_21 45 morning)

process_qr_code-again_example :
    (e : AttendanceEvent) × IsOfCall token_hash directory scan_21 e
    × LoggedBy token_hash directory scan_21 morning first_scan.db e
    × (process_qr_code token_hash directory scan_21 60 first_scan.db
        ≡ returns (record {
          db = first_scan.db;
          response =
              ScanResponse.idempotent_duplicate e
                (record_of_student scan_21 e.student_id first_scan.db);
        }))
unfolding process_qr_code first_scan morning
process_qr_code-again_example =
    process_qr_code-again token_hash directory scan_21 45 60 morning first_scan refl

-- The session of the day after it was finalized.
abbrev final_session : Session
final_session = record {
  id = 100;
  school_id = 1;
  class_section_id = 3;
  teacher_id = 5;
  session_date = 20000;
  session_type = "DAILY";
  status = SessionStatus.finalized;
  finalized_at = some 50;
  finalized_by = some 5;
}

abbrev late_scan : Scanned
unfolding process_qr_code
late_scan = scanned_or nothing (process_qr_code token_hash directory scan_21 70 closed)

process_qr_code-final_example :
    (e : AttendanceEvent) × IsOfCall token_hash directory scan_21 e
    × (find? (is_same_event scan_21) closed.events ≡ some e)
    × (late_scan ≡ answered_again token_hash directory scan_21 e closed)
unfolding process_qr_code late_scan closed after_scan morning
process_qr_code-final_example =
    process_qr_code-final token_hash directory scan_21 70 final_session closed late_scan refl refl
      refl

manual_status_update-final_example :
    let db' = (manual_status_update directory correct_22 80 closed).db in
    (db'.records ≡ closed.records)
    ⊎ ((is_admin UserRole.school_admin ≡ true)
        × (is_blank correct_22.reason ≡ false)
        × IsCorrected correct_22 closed db')
unfolding manual_status_update closed after_scan morning
manual_status_update-final_example =
    manual_status_update-final directory correct_22 closed 80 final_session refl refl

create_absence_notification_jobs-once_example :
    (db' : Database) × (db'' : Database) × (create_absence_notification_jobs clock directory 1 100
        closed
      ≡ returns db')
    × HasDistinctJobs db'.jobs
    × All
        (IsCovered clock
          (settings_or_default none)
          final_session
          (guardian_map 1 directory.guardians [])
          db'.jobs)
        (filterb (absent_in 1 100) closed.records)
    × (create_absence_notification_jobs clock directory 1 100 db' ≡ returns db'')
    × (db''.jobs ≡ db'.jobs)
unfolding closed after_scan morning
create_absence_notification_jobs-once_example =
    create_absence_notification_jobs-once clock directory 1 100 final_session closed refl refl refl
      (refl, tt)

abbrev without_jobs : Database
without_jobs = record closed { jobs = [] }

abbrev job_db : Result JobError Database → Database
job_db (throws e) = empty
job_db (returns db) = db

abbrev again : Database
unfolding create_absence_notification_jobs
again = job_db (create_absence_notification_jobs clock directory 1 100 without_jobs)

create_absence_notification_jobs-IsLawful_example :
    All (IsLawful (settings_or_default none) (guardian_map 1 directory.guardians [])) again.jobs
unfolding again create_absence_notification_jobs closed after_scan morning
create_absence_notification_jobs-IsLawful_example =
    create_absence_notification_jobs-IsLawful clock directory 1 100 without_jobs again tt refl

on_attendance_corrected-cancelled_example :
    anyb
      (is_cancellable 102)
      (on_attendance_corrected 80 102 1 22 AttendanceStatus.absent AttendanceStatus.leave
        closed).jobs
    ≡ false
unfolding closed
on_attendance_corrected-cancelled_example =
    on_attendance_corrected-cancelled 80 102 1 22 AttendanceStatus.absent AttendanceStatus.leave
      closed refl refl

process_qr_code-proof_example :
    (first_scan.db ≡ morning)
    ⊎ ((student : ℕ) × Proven token_hash directory scan_21 morning student
        × Logs scan_21 student morning first_scan.db)
unfolding process_qr_code first_scan morning
process_qr_code-proof_example =
    process_qr_code-proof token_hash directory scan_21 45 morning first_scan refl

abbrev created_or : CreatedSession → Result Failure CreatedSession → CreatedSession
created_or d (throws e) = d
created_or d (returns c) = c

abbrev morning_session : CreatedSession
unfolding create_attendance_session
morning_session =
    created_or (record { db = empty; session = final_session; is_new = false })
      (create_attendance_session directory day 10 empty)

Reachable-WellFormed_example : WellFormed first_scan.db
unfolding create_attendance_session process_qr_code first_scan morning morning_session
Reachable-WellFormed_example =
    Reachable-WellFormed token_hash empty first_scan.db
      (record { unique = tt; records_below = tt; sessions_below = tt })
      (next morning first_scan.db
        (next empty morning stay (created directory day 10 morning_session refl))
        (scanned directory scan_21 45 first_scan refl))
