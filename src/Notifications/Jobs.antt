-- ===== src/Notifications/Jobs.antt =====
-- The table of jobs, and src/services/notifications/absenceScheduler.ts: what a corrected mark does
-- to the jobs of its record.
use offline_qr_school_attend.Common.{
  ℕ, suc, Bool, true, false, ◌&&◌, ◌||◌, not, Option, none, some, List, [], ◌∷◌, ◌++◌, map, ◌==◌,
  anyb, find?, if◌then◌else◌,
}
use offline_qr_school_attend.Store.{
  AttendanceStatus, JobStatus, JobKind, JobReason, NotificationJob, Database,
}

abbrev pub is_absence : JobKind → Bool
is_absence JobKind.absence = true
is_absence JobKind.correction = false

abbrev pub same_kind : JobKind → JobKind → Bool
same_kind a b = if is_absence a then is_absence b else not (is_absence b)

abbrev pub same_option : Option ℕ → Option ℕ → Bool
same_option none none = true
same_option (some a) (some b) = a == b
same_option _ _ = false

-- Two values of a unique column, of which a NULL equals none.
abbrev pub same_value : Option ℕ → Option ℕ → Bool
same_value (some a) (some b) = a == b
same_value _ _ = false

-- The unique indexes notification_jobs_dedup_idx and notification_jobs_record_kind_uq.
abbrev pub conflicts : NotificationJob → NotificationJob → Bool
conflicts j k =
    (j.school_id == k.school_id
      && (j.student_id == k.student_id
          && (j.attendance_session_id == k.attendance_session_id
              && (same_kind j.notification_type k.notification_type
                  && same_option j.finalized_attendance_version k.finalized_attendance_version))))
    || (same_value j.attendance_record_id k.attendance_record_id && same_kind j.kind k.kind)

-- `insert … onConflictDoNothing`, on the list of jobs.
abbrev pub add_job : NotificationJob → List NotificationJob → List NotificationJob
add_job j jobs = if anyb (conflicts j) jobs then jobs else jobs ++ j ∷ []

-- The same on the database, where the job takes the next identifier.
abbrev pub insert_job : (ℕ → NotificationJob) → Database → Database
insert_job job db = record db { next_id = suc db.next_id; jobs = add_job (job db.next_id) db.jobs }

abbrev pub is_scheduled : JobStatus → Bool
is_scheduled JobStatus.scheduled = true
is_scheduled _ = false

abbrev pub is_sent : JobStatus → Bool
is_sent JobStatus.sent = true
is_sent _ = false

abbrev pub is_absent : AttendanceStatus → Bool
is_absent AttendanceStatus.absent = true
is_absent _ = false

-- The absence job of a record.
abbrev pub is_absence_of : ℕ → NotificationJob → Bool
is_absence_of record_id j = same_value j.attendance_record_id (some record_id) && is_absence j.kind

abbrev pub is_cancellable : ℕ → NotificationJob → Bool
is_cancellable record_id j = is_absence_of record_id j && is_scheduled j.status

abbrev pub cancel_job : ℕ → NotificationJob → NotificationJob
cancel_job record_id j =
    if is_cancellable record_id j
    then record j { status = JobStatus.cancelled; reason = some JobReason.corrected_before_send }
    else j

abbrev pub correction_job : ℕ → ℕ → ℕ → ℕ → NotificationJob → ℕ → NotificationJob
correction_job now record_id school student sent_job id = record {
  id = id;
  school_id = school;
  attendance_session_id = sent_job.attendance_session_id;
  student_id = student;
  recipient_phone = sent_job.recipient_phone;
  status = JobStatus.scheduled;
  notification_type = JobKind.correction;
  finalized_attendance_version = none;
  attendance_record_id = some record_id;
  kind = JobKind.correction;
  reason = none;
  send_after = some now;
}

-- The correction of a job that has been sent, if there is one.
abbrev pub correct_sent : ℕ → ℕ → ℕ → ℕ → Option NotificationJob → Database → Database
correct_sent now record_id school student none db = db
correct_sent now record_id school student (some j) db =
    insert_job (correction_job now record_id school student j) db

abbrev pub on_cleared : ℕ → ℕ → ℕ → ℕ → Database → Database
on_cleared now record_id school student db =
    if anyb (is_cancellable record_id) db.jobs
    then record db { jobs = map (cancel_job record_id) db.jobs }
    else correct_sent now record_id school student
        (find? (λ j. is_absence_of record_id j && is_sent j.status) db.jobs) db

-- `onAttendanceCorrected`
unfoldable pub on_attendance_corrected :
    ℕ → ℕ → ℕ → ℕ → AttendanceStatus → AttendanceStatus → Database → Database
on_attendance_corrected now record_id school student from to db =
    if is_absent from && not (is_absent to) then on_cleared now record_id school student db else db
