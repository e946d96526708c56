-- ===== src/Notifications/Absence.antt =====
-- `createAbsenceNotificationJobs` of src/services/notificationService.ts. The texts of the messages
-- are left out.
use offline_qr_school_attend.Common.{
  ℕ, ◌+◌, ◌*◌, Bool, true, false, ◌&&◌, not, Option, none, some, List, [], ◌∷◌, ◌==◌, ltb, anyb,
  find?, filterb, if◌then◌else◌,
}
use offline_qr_school_attend.Common.Maps.{Map, lookup, insert}
use offline_qr_school_attend.Common.Result.{Result, returns, ◌>>=◌, ◌>>◌, require, or_throw}
use offline_qr_school_attend.Directory.{Directory, Guardian, SmsSettings}
use offline_qr_school_attend.Ingest.Types.{is_finalized}
use offline_qr_school_attend.Ingest.Epc.{trim, is_space}
use offline_qr_school_attend.Notifications.Jobs.{insert_job, is_absent}
use offline_qr_school_attend.Store.{
  Session, AttendanceRecord, JobStatus, JobKind, JobReason, NotificationJob, Database,
}

pub data JobError : Type 0 where
  attendance_session_not_found session_not_finalized : JobError

-- The settings of a school that has none yet.
abbrev pub default_settings : SmsSettings
default_settings = record { sms_enabled = true; allowlist_enabled = false; allowlist = [] }

abbrev pub settings_or_default : Option SmsSettings → SmsSettings
settings_or_default none = default_settings
settings_or_default (some s) = s

abbrev pub same_text : List ℕ → List ℕ → Bool
same_text [] [] = true
same_text (c ∷ s) (d ∷ t) = c == d && same_text s t
same_text _ _ = false

abbrev pub is_empty : List ℕ → Bool
is_empty [] = true
is_empty (_ ∷ _) = false

-- `phone.replace(/\s+/g, '')`
abbrev pub clean_phone : List ℕ → List ℕ
clean_phone phone = filterb (λ c. not (is_space c)) phone

abbrev pub is_allowed : SmsSettings → List ℕ → Bool
is_allowed settings phone =
    anyb (λ num. same_text (clean_phone num) (clean_phone phone)) settings.allowlist

-- `new Map(guardianRows.map((g) => [g.studentId, g]))`
abbrev pub guardian_map : ℕ → List Guardian → Map Guardian → Map Guardian
guardian_map school [] m = m
guardian_map school (g ∷ gs) m =
    guardian_map school gs
      (if g.school_id == school && g.is_primary then insert g.student_id g m else m)

abbrev pub phone_of : Option Guardian → List ℕ
phone_of none = []
phone_of (some g) = trim g.phone_number

abbrev pub opted_out : Option Guardian → Bool
opted_out none = false
opted_out (some g) = g.sms_opt_out

-- The minutes of ABSENCE_SMS_DELAY_MINUTES, and the instant of the call.
pub record Clock : Type 0 where
  pub now : ℕ
  pub delay_minutes : ℕ

abbrev missing_phone : List ℕ
missing_phone = b'M' ∷ b'I' ∷ b'S' ∷ b'S' ∷ b'I' ∷ b'N' ∷ b'G' ∷ []

-- The fields that the four kinds of job share.
abbrev pub blank_job : Session → ℕ → JobStatus → List ℕ → Option JobReason → ℕ → NotificationJob
blank_job session student status phone reason id = record {
  id = id;
  school_id = session.school_id;
  attendance_session_id = session.id;
  student_id = student;
  recipient_phone = phone;
  status = status;
  notification_type = JobKind.absence;
  finalized_attendance_version = session.finalized_at;
  attendance_record_id = none;
  kind = JobKind.absence;
  reason = reason;
  send_after = none;
}

abbrev pub due_job : Clock → Session → AttendanceRecord → List ℕ → ℕ → NotificationJob
due_job clock session r phone id =
    let delayed = ltb 0 clock.delay_minutes in
    record (blank_job session r.student_id
      (if delayed then JobStatus.scheduled else JobStatus.queued) phone none id) {
        attendance_record_id = some r.id;
        send_after = if delayed then some (clock.now + clock.delay_minutes * 60_000) else none;
      }

-- The job of one absent record: one branch for each reason not to send.
unfoldable pub absence_job :
    Clock → SmsSettings → Session → Option Guardian → AttendanceRecord → ℕ → NotificationJob
absence_job clock settings session g r id =
    let phone = phone_of g in
    if is_empty phone
    then blank_job session r.student_id JobStatus.permanent_failure missing_phone
        (some JobReason.missing_guardian_phone) id
    else (if opted_out g
        then blank_job session r.student_id JobStatus.cancelled phone
            (some JobReason.guardian_opted_out) id
        else (if settings.allowlist_enabled && not (is_allowed settings phone)
            then blank_job session r.student_id JobStatus.cancelled phone
                (some JobReason.phone_not_in_allowlist) id
            else due_job clock session r phone id))

unfoldable pub insert_absence_jobs :
    Clock → SmsSettings → Session → Map Guardian → List AttendanceRecord → Database → Database
unfolding absence_job
insert_absence_jobs clock settings session guardians [] db = db
insert_absence_jobs clock settings session guardians (r ∷ rs) db =
    insert_absence_jobs clock settings session guardians rs
      (insert_job (absence_job clock settings session (lookup r.student_id guardians) r) db)

abbrev pub is_session : ℕ → ℕ → Session → Bool
is_session school id s = s.school_id == school && s.id == id

abbrev pub absent_in : ℕ → ℕ → AttendanceRecord → Bool
absent_in school session r =
    r.attendance_session_id == session && (r.school_id == school && is_absent r.status)

abbrev pub enqueue : Clock → SmsSettings → Directory → Session → Database → Database
enqueue clock settings dir session db =
    insert_absence_jobs clock settings session (guardian_map session.school_id dir.guardians [])
      (filterb (absent_in session.school_id session.id) db.records) db

abbrev pub checked_enqueue :
    Clock → SmsSettings → Directory → ℕ → ℕ → Database → Result JobError Database
checked_enqueue clock settings dir school session_id db = do
  session ←
      or_throw (find? (is_session school session_id) db.sessions)
        JobError.attendance_session_not_found
  require (is_finalized session.status) JobError.session_not_finalized
  returns (enqueue clock settings dir session db)

-- `createAbsenceNotificationJobs`
unfoldable pub create_absence_notification_jobs :
    Clock → Directory → ℕ → ℕ → Database → Result JobError Database
unfolding insert_absence_jobs
create_absence_notification_jobs clock dir school session_id db =
    let settings = settings_or_default (dir.sms_settings school) in
    if settings.sms_enabled
    then checked_enqueue clock settings dir school session_id db
    else returns db
