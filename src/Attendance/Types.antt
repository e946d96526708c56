-- ===== src/Attendance/Types.antt =====
-- The errors that the attendance service throws, and the parameters of its calls.
use offline_qr_school_attend.Common.{ℕ, Option, List, Bool}
use Prim.Native.String.{String}
use offline_qr_school_attend.Directory.{UserRole}
use offline_qr_school_attend.Ingest.Types.{SessionStatus}
use offline_qr_school_attend.Notifications.Absence.{JobError}
use offline_qr_school_attend.Store.{AttendanceStatus, AttendanceRecord, AttendanceEvent}

-- `unique_violation` is the error of the database on a row whose key is taken, in a transaction of
-- the call's own; outside one, the error aborts the transaction of the whole request.
pub data Failure : Type 0 where
  unauthorized_teacher_not_assigned unauthorized_actor_context : Failure
  session_not_found finalized_session_locked : Failure
  reopen_requires_admin_role reopen_reason_required correction_reason_required : Failure
  missing_qr_proof invalid_qr_token wrong_school_qr revoked_qr_token : Failure
  missing_student_identifier student_not_in_roster student_not_found : Failure
  student_not_in_session_roster attendance_record_not_found : Failure
  unique_violation transaction_aborted : Failure
  job_error : JobError → Failure

pub record SessionParams : Type 0 where
  pub school_id : ℕ
  pub class_section_id : ℕ
  pub teacher_id : ℕ
  pub session_date : ℕ
  pub session_type : String
  pub actor_id : ℕ
  pub user_role : UserRole

-- A missing reason is the empty text: the code tests both in one.
pub record StatusParams : Type 0 where
  pub school_id : ℕ
  pub session_id : ℕ
  pub actor_id : ℕ
  pub user_role : UserRole
  pub new_status : SessionStatus
  pub reason : List ℕ
  pub auto_mark_absent_for_unmarked : Bool

pub data ScanSource : Type 0 where
  camera usb manual : ScanSource

-- A missing token is the empty text, in the same way.
pub record ScanParams : Type 0 where
  pub school_id : ℕ
  pub session_id : ℕ
  pub actor_id : Option ℕ
  pub user_role : Option UserRole
  pub client_event_id : ℕ
  pub raw_token : List ℕ
  pub student_id : Option ℕ
  pub status_value : AttendanceStatus
  pub client_timestamp : Option ℕ
  pub source : ScanSource

pub data ScanResponse : Type 0 where
  idempotent_duplicate : AttendanceEvent → Option AttendanceRecord → ScanResponse
  duplicate_scan : AttendanceRecord → ScanResponse
  scanned : AttendanceRecord → ScanResponse

pub record ManualParams : Type 0 where
  pub school_id : ℕ
  pub session_id : ℕ
  pub record_id : Option ℕ
  pub student_id : Option ℕ
  pub new_status : AttendanceStatus
  pub reason : List ℕ
  pub actor_id : ℕ
  pub user_role : UserRole
  pub client_event_id : ℕ
