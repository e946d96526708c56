-- ===== src/Attendance/Tables.antt =====
-- The statements of the attendance service on its tables.
use offline_qr_school_attend.Common.{
  ℕ, suc, Bool, true, false, ◌&&◌, Option, none, some, List, [], ◌∷◌, ◌++◌, map, ◌==◌, anyb,
  is_some, if◌then◌else◌,
}
use offline_qr_school_attend.Common.Result.{Result, throws, returns}
use offline_qr_school_attend.Attendance.Types.{Failure}
use offline_qr_school_attend.Store.{
  AttendanceStatus, CaptureMethod, Source, RosterEntry, AttendanceRecord, AttendanceEvent, Database,
  record_at,
}

-- The record of a student in a session of a school.
abbrev pub is_school_record : ℕ → ℕ → ℕ → AttendanceRecord → Bool
is_school_record school session student r =
    r.school_id == school && (r.attendance_session_id == session && r.student_id == student)

abbrev pub is_record_id : ℕ → ℕ → ℕ → AttendanceRecord → Bool
is_record_id school session id r =
    r.school_id == school && (r.attendance_session_id == session && r.id == id)

abbrev pub is_on_roster : ℕ → ℕ → RosterEntry → Bool
is_on_roster session student e = e.attendance_session_id == session && e.student_id == student

abbrev pub has_event_id : ℕ → AttendanceEvent → Bool
has_event_id id e = e.client_event_id == id

-- `insert` into attendance_events, whose client_event_id is unique.
abbrev pub insert_event : AttendanceEvent → Database → Result Failure Database
insert_event e db =
    if anyb (has_event_id e.client_event_id) db.events
    then throws Failure.unique_violation
    else returns (record db { events = db.events ++ e ∷ [] })

-- The same outside an inner transaction.
abbrev pub insert_event_directly : AttendanceEvent → Database → Result Failure Database
insert_event_directly e db =
    if anyb (has_event_id e.client_event_id) db.events
    then throws Failure.transaction_aborted
    else returns (record db { events = db.events ++ e ∷ [] })

-- A record with the defaults of its columns.
abbrev pub default_record :
    ℕ → ℕ → ℕ → AttendanceStatus → Option ℕ → ℕ → CaptureMethod → ℕ → AttendanceRecord
default_record school session student status scanned now capture id = record {
  id = id;
  school_id = school;
  attendance_session_id = session;
  student_id = student;
  status = status;
  first_scanned_at = scanned;
  last_updated_at = now;
  capture_method = capture;
  source = some Source.rfid;
  first_seen_at = none;
  last_seen_at = none;
  review_reason = none;
}

-- `insert` into attendance_records, where a session and a student have one record.
abbrev pub insert_record : (ℕ → AttendanceRecord) → Database → Result Failure Database
insert_record row db =
    let r = row db.next_id in
    if is_some (record_at r.attendance_session_id r.student_id db.records)
    then throws Failure.unique_violation
    else returns (record db { next_id = suc db.next_id; records = db.records ++ r ∷ [] })

-- `update … where id = …`
abbrev pub update_by_id :
    ℕ → (AttendanceRecord → AttendanceRecord) → List AttendanceRecord → List AttendanceRecord
update_by_id id f records = map (λ (r : AttendanceRecord). if r.id == id then f r else r) records

abbrev pub same_status : AttendanceStatus → AttendanceStatus → Bool
same_status AttendanceStatus.unmarked AttendanceStatus.unmarked = true
same_status AttendanceStatus.present AttendanceStatus.present = true
same_status AttendanceStatus.late AttendanceStatus.late = true
same_status AttendanceStatus.absent AttendanceStatus.absent = true
same_status AttendanceStatus.excused AttendanceStatus.excused = true
same_status AttendanceStatus.leave AttendanceStatus.leave = true
same_status _ _ = false
