-- ===== src/Sync/Events.antt =====
-- The events of a batch, one after the other, each by `processQRCode`.
use offline_qr_school_attend.Common.{
  ℕ, suc, ◌+◌, Bool, true, false, ◌||◌, Option, none, some, List, [], ◌∷◌, ◌==◌, ltb, find?,
  if◌then◌else◌,
}
use offline_qr_school_attend.Common.Result.{Result, throws, returns}
use offline_qr_school_attend.Directory.{Directory, UserRole}
use offline_qr_school_attend.Attendance.Scan.{Scanned, process_qr_code}
use offline_qr_school_attend.Attendance.Tables.{is_school_record}
use offline_qr_school_attend.Attendance.Types.{Failure, ScanParams, ScanSource, ScanResponse}
use offline_qr_school_attend.Notifications.Absence.{is_empty, same_text}
use offline_qr_school_attend.Store.{AttendanceStatus, AttendanceRecord}
use offline_qr_school_attend.Sync.Types.{
  SyncEventPayload, ItemStatus, SyncBatchResultItem, ServerMapping, SyncDb,
}

-- `serverSessionIds.get(id)`
abbrev pub server_session : List ℕ → List ServerMapping → Option ℕ
server_session client [] = none
server_session client (m ∷ ms) =
    let rest = server_session client ms in
    if same_text m.client_session_id client then some m.server_session_id else rest

-- `event.clientSessionId || event.metadata?.clientSessionId`
abbrev pub client_session_of : SyncEventPayload → List ℕ
client_session_of e =
    if is_empty e.client_session_id then e.metadata.client_session_id else e.client_session_id

abbrev pub resolve_session : List ServerMapping → SyncEventPayload → Option ℕ
resolve_session mappings e =
    if is_empty (client_session_of e)
    then e.session_id
    else server_session (client_session_of e) mappings

-- `10 * 60 * 1000`
abbrev pub max_clock_skew_ms : ℕ
max_clock_skew_ms = 600000

abbrev pub is_ahead : ℕ → SyncEventPayload → Bool
is_ahead now e = ltb (now + max_clock_skew_ms) e.client_timestamp

unfoldable pub record_time : ℕ → SyncEventPayload → ℕ
record_time now e = if is_ahead now e then now else e.client_timestamp

abbrev pub status_or_present : Option AttendanceStatus → AttendanceStatus
status_or_present none = AttendanceStatus.present
status_or_present (some s) = s

abbrev pub source_or_camera : Option ScanSource → ScanSource
source_or_camera none = ScanSource.camera
source_or_camera (some s) = s

abbrev pub scan_of_event : ℕ → ℕ → UserRole → ℕ → ℕ → SyncEventPayload → ScanParams
scan_of_event school actor role now session e = record {
  school_id = school;
  session_id = session;
  actor_id = some actor;
  user_role = some role;
  client_event_id = e.client_event_id;
  raw_token = e.raw_token;
  student_id = e.student_id;
  status_value = status_or_present e.status_value;
  client_timestamp = some (record_time now e);
  source = source_or_camera e.source;
}

-- A batch on its way, what it has answered, and how many times it has set right.
pub record EventRun : Type 0 where
  pub db : SyncDb
  pub results : List SyncBatchResultItem
  pub clock_skew_corrected_count : ℕ

abbrev pub item : SyncEventPayload → ItemStatus → SyncBatchResultItem
item e status = record { client_event_id = e.client_event_id; status = status }

pub record EventStep : Type 0 where
  pub db : SyncDb
  pub status : ItemStatus

abbrev pub accepted_as : ScanResponse → ItemStatus
accepted_as (ScanResponse.idempotent_duplicate e r) = ItemStatus.already_processed
accepted_as (ScanResponse.duplicate_scan r) = ItemStatus.accepted true
accepted_as (ScanResponse.scanned r) = ItemStatus.accepted false

abbrev pub set_conflict : Option AttendanceRecord → SyncDb → SyncDb
set_conflict none db = db
set_conflict (some r) db = record db { has_conflict = λ id. id == r.id || db.has_conflict id }

abbrev pub is_locked : Failure → Bool
is_locked Failure.finalized_session_locked = true
is_locked _ = false

abbrev pub conflict_of_student : ℕ → ℕ → Option ℕ → SyncDb → SyncDb
conflict_of_student school session none db = db
conflict_of_student school session (some student) db =
    set_conflict (find? (is_school_record school session student) db.attendance.records) db

-- A mark for a final session is kept as a conflict of the student's record.
unfoldable pub preserve_conflict : ℕ → ℕ → SyncEventPayload → Failure → SyncDb → SyncDb
preserve_conflict school session e failure db =
    if is_locked failure then conflict_of_student school session e.student_id db else db

-- The answer to an event. One whose statement has aborted the transaction is rejected like any other,
-- and the rest of the batch no longer counts: see `commit_batch` of Sync/Batch.
unfoldable pub apply_scan : ℕ → ℕ → SyncEventPayload → SyncDb → Result Failure Scanned → EventStep
unfolding preserve_conflict
apply_scan school session e db (throws failure) = record {
  db = preserve_conflict school session e failure db;
  status = ItemStatus.rejected failure;
}
apply_scan school session e db (returns s) = record {
  db = record db { attendance = s.db };
  status = accepted_as s.response;
}

module _ (sha256 : List ℕ → ℕ) (dir : Directory) (school actor : ℕ) (role : UserRole) (now : ℕ)
    (mappings : List ServerMapping) where
  abbrev pub sync_resolved : SyncEventPayload → SyncDb → Option ℕ → EventStep
  sync_resolved e db none = record {
    db = db;
    status = ItemStatus.rejected Failure.session_not_found;
  }
  sync_resolved e db (some session) =
      apply_scan school session e db (
        process_qr_code sha256 dir (scan_of_event school actor role now session e) now
          db.attendance)

  unfoldable pub sync_event : SyncEventPayload → SyncDb → EventStep
  unfolding apply_scan record_time process_qr_code
  sync_event e db = sync_resolved e db (resolve_session mappings e)

  abbrev pub is_corrected : SyncEventPayload → Option ℕ → Bool
  is_corrected e none = false
  is_corrected e (some session) = is_ahead now e

  abbrev pub count_if : Bool → ℕ → ℕ
  count_if true n = suc n
  count_if false n = n

  abbrev pub add_result : SyncEventPayload → ItemStatus → EventRun → EventRun
  add_result e status rest = record {
    db = rest.db;
    results = item e status ∷ rest.results;
    clock_skew_corrected_count =
        count_if (is_corrected e (resolve_session mappings e)) rest.clock_skew_corrected_count;
  }

  unfoldable pub sync_events : List SyncEventPayload → SyncDb → EventRun
  unfolding sync_event
  sync_events [] db = record { db = db; results = []; clock_skew_corrected_count = 0 }
  sync_events (e ∷ es) db = let s = sync_event e db in add_result e s.status (sync_events es s.db)
