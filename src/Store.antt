-- ===== src/Store.antt =====
-- The attendance tables of src/db/schema.ts, and the statements that the services run on them. A
-- table is a list of rows in the order of insertion; an identifier that the database draws at
-- random is the next number that has not been used.
use Prim.Native.String.{String}
use offline_qr_school_attend.Common.{ℕ, Bool, ◌&&◌, Option, List, ◌==◌, find?}
use offline_qr_school_attend.Ingest.Types.{SessionStatus, Decision, ReviewFlag}

pub data AttendanceStatus : Type 0 where
  unmarked present late absent excused leave : AttendanceStatus

pub data CaptureMethod : Type 0 where
  qr rfid_gate manual : CaptureMethod

pub data Source : Type 0 where
  rfid manual : Source

pub record Session : Type 0 where
  pub id : ℕ
  pub school_id : ℕ
  pub class_section_id : ℕ
  pub teacher_id : ℕ
  pub session_date : ℕ
  pub session_type : String
  pub status : SessionStatus
  pub finalized_at : Option ℕ
  pub finalized_by : Option ℕ

pub record RosterEntry : Type 0 where
  pub attendance_session_id : ℕ
  pub student_id : ℕ
  pub enrollment_id : ℕ

pub record AttendanceRecord : Type 0 where
  pub id : ℕ
  pub school_id : ℕ
  pub attendance_session_id : ℕ
  pub student_id : ℕ
  pub status : AttendanceStatus
  pub first_scanned_at : Option ℕ
  pub last_updated_at : ℕ
  pub capture_method : CaptureMethod
  pub source : Option Source
  pub first_seen_at : Option ℕ
  pub last_seen_at : Option ℕ
  pub review_reason : Option ReviewFlag

pub data EventType : Type 0 where
  rfid_present qr_scanned usb_barcode_scanned duplicate_qr_scanned : EventType
  manual_status_change finalization_auto_absent : EventType

pub record AttendanceEvent : Type 0 where
  pub school_id : ℕ
  pub client_event_id : ℕ
  pub attendance_session_id : ℕ
  pub student_id : ℕ
  pub event_type : EventType
  pub status_value : AttendanceStatus
  pub client_timestamp : ℕ
  pub actor_id : Option ℕ
  pub actor_reader_id : Option ℕ

pub record Correction : Type 0 where
  pub attendance_record_id : ℕ
  pub previous_status : AttendanceStatus
  pub new_status : AttendanceStatus
  pub reason : List ℕ
  pub corrected_by : ℕ

pub record ScanEvent : Type 0 where
  pub school_id : ℕ
  pub reader_id : ℕ
  pub credential_id : Option ℕ
  pub student_id : Option ℕ
  pub attendance_session_id : Option ℕ
  pub idempotency_key : ℕ
  pub epc_digest : ℕ
  pub antenna_port : Option ℕ
  pub peak_rssi : Option ℕ
  pub scan_timestamp : ℕ
  pub decision : Decision
  pub review_flag : Option ReviewFlag

pub data JobStatus : Type 0 where
  scheduled queued sending sent delivered failed permanent_failure cancelled : JobStatus

pub data JobKind : Type 0 where
  absence correction : JobKind

-- Why a job is not to be sent: `failureReason` and `cancelledReason`.
pub data JobReason : Type 0 where
  missing_guardian_phone guardian_opted_out phone_not_in_allowlist : JobReason
  corrected_before_send : JobReason

pub record NotificationJob : Type 0 where
  pub id : ℕ
  pub school_id : ℕ
  pub attendance_session_id : ℕ
  pub student_id : ℕ
  pub recipient_phone : List ℕ
  pub status : JobStatus
  pub notification_type : JobKind
  pub finalized_attendance_version : Option ℕ
  pub attendance_record_id : Option ℕ
  pub kind : JobKind
  pub reason : Option JobReason
  pub send_after : Option ℕ

pub data AuditAction : Type 0 where
  create_attendance_session : AuditAction
  session_status : SessionStatus → AuditAction

pub record AuditLog : Type 0 where
  pub school_id : ℕ
  pub actor_id : ℕ
  pub action : AuditAction
  pub resource_id : ℕ

pub record Database : Type 0 where
  pub next_id : ℕ
  pub sessions : List Session
  pub roster : List RosterEntry
  pub records : List AttendanceRecord
  pub events : List AttendanceEvent
  pub corrections : List Correction
  pub scan_events : List ScanEvent
  pub jobs : List NotificationJob
  pub audit_logs : List AuditLog

-- The unique key (attendance_session_id, student_id) of `attendance_records`.
abbrev pub is_record_of : ℕ → ℕ → AttendanceRecord → Bool
is_record_of session student r = r.attendance_session_id == session && r.student_id == student

abbrev pub record_at : ℕ → ℕ → List AttendanceRecord → Option AttendanceRecord
record_at session student records = find? (is_record_of session student) records
