-- ===== src/Sync/Types.antt =====
-- What `syncAttendanceEvents` of src/services/syncService.ts takes, reads and answers.
use Prim.Native.String.{String}
use offline_qr_school_attend.Common.{ℕ, Bool, Option, List}
use offline_qr_school_attend.Directory.{Directory, UserRole}
use offline_qr_school_attend.Attendance.Types.{Failure, ScanSource}
use offline_qr_school_attend.Store.{AttendanceStatus, Database}

-- The metadata of an event, as far as it is read; an event without metadata has none of these.
pub record EventMetadata : Type 0 where
  pub client_session_id : List ℕ
  pub class_section_id : Option ℕ
  pub session_date : Option ℕ
  pub session_type : String

-- A server session is named by the number of its UUID: `none` is an identifier that is missing or
-- is not a UUID. The identifier of a client session is a text, empty where it is missing.
pub record SyncEventPayload : Type 0 where
  pub client_event_id : ℕ
  pub session_id : Option ℕ
  pub raw_token : List ℕ
  pub student_id : Option ℕ
  pub status_value : Option AttendanceStatus
  pub client_timestamp : ℕ
  pub source : Option ScanSource
  pub metadata : EventMetadata
  pub client_session_id : List ℕ

pub record SyncSessionPayload : Type 0 where
  pub client_session_id : List ℕ
  pub class_section_id : ℕ
  pub session_date : ℕ
  pub session_type : String

pub record SyncParams : Type 0 where
  pub school_id : ℕ
  pub actor_id : ℕ
  pub device_identifier : List ℕ
  pub user_role : Option UserRole
  pub events : List SyncEventPayload
  pub sessions : List SyncSessionPayload

-- The errors that the whole call throws.
pub data SyncError : Type 0 where
  device_identifier_required batch_size_exceeded user_suspended device_revoked : SyncError
  invalid_client_session_id unauthorized_teacher_not_assigned unique_violation : SyncError
  transaction_aborted : SyncError

pub data ItemStatus : Type 0 where
  accepted : Bool → ItemStatus
  already_processed : ItemStatus
  rejected : Failure → ItemStatus

pub record SyncBatchResultItem : Type 0 where
  pub client_event_id : ℕ
  pub status : ItemStatus

pub record ServerMapping : Type 0 where
  pub client_session_id : List ℕ
  pub server_session_id : ℕ

pub record SyncResponse : Type 0 where
  pub processed_count : ℕ
  pub results : List SyncBatchResultItem
  pub session_mappings : List ServerMapping

pub record User : Type 0 where
  pub id : ℕ
  pub status : String

pub record Membership : Type 0 where
  pub school_id : ℕ
  pub user_id : ℕ
  pub status : String

pub data DeviceStatus : Type 0 where
  authorized revoked : DeviceStatus

pub record Device : Type 0 where
  pub id : ℕ
  pub school_id : ℕ
  pub user_id : ℕ
  pub device_identifier : List ℕ
  pub status : DeviceStatus

-- The tables that a synchronisation only reads.
pub record SyncDirectory : Type 0 where
  pub directory : Directory
  pub users : List User
  pub memberships : List Membership
  pub devices : List Device

-- The column `client_session_id` of the sessions of a school, where it is filled.
pub record ClientSession : Type 0 where
  pub school_id : ℕ
  pub client_session_id : List ℕ
  pub session_id : ℕ

-- The metadata of the entry BATCH_ATTENDANCE_SYNC of the audit log.
pub record BatchLog : Type 0 where
  pub school_id : ℕ
  pub actor_id : ℕ
  pub total_events : ℕ
  pub accepted_count : ℕ
  pub duplicate_count : ℕ
  pub rejected_count : ℕ
  pub clock_skew_corrected_count : ℕ

-- The attendance tables, with the columns that only the synchronisation writes beside them:
-- `has_conflict` of the records is a function of their identifiers.
pub record SyncDb : Type 0 where
  pub attendance : Database
  pub client_sessions : List ClientSession
  pub has_conflict : ℕ → Bool
  pub batches : List BatchLog
