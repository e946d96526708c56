-- ===== src/Sync/Batch.antt =====
-- `syncAttendanceEvents`
use text.Mathlib.Text.{◌==◌ as str_eq}
use offline_qr_school_attend.Common.{
  ℕ, Bool, true, false, ◌&&◌, not, Option, none, some, List, [], ◌∷◌, ◌++◌, ◌==◌, leb, find?,
  filterb, length, anyb, if◌then◌else◌,
}
use offline_qr_school_attend.Common.Result.{Result, throws, returns, ◌>>◌, require}
use offline_qr_school_attend.Directory.{UserRole}
use offline_qr_school_attend.Attendance.Types.{Failure}
use offline_qr_school_attend.Notifications.Absence.{is_empty}
use offline_qr_school_attend.Sync.Types.{
  SyncBatchResultItem, ServerMapping, SyncParams, SyncError, ItemStatus, SyncResponse, User,
  Membership, Device, SyncDirectory, BatchLog, SyncDb,
}
use offline_qr_school_attend.Sync.Devices.{DeviceReason, validate_device_status}
use offline_qr_school_attend.Sync.Sessions.{Reconciliation, session_payloads, reconcile_sessions}
use offline_qr_school_attend.Sync.Events.{EventRun, sync_events}

abbrev pub is_user : ℕ → User → Bool
is_user id u = u.id == id

abbrev pub is_member : ℕ → ℕ → Membership → Bool
is_member school user m = m.school_id == school && m.user_id == user

-- A user who is not there is suspended; one without a membership is not.
abbrev pub user_may_sync : Option User → Bool
user_may_sync none = false
user_may_sync (some u) = not (str_eq u.status "SUSPENDED")

abbrev pub member_may_sync : Option Membership → Bool
member_may_sync none = true
member_may_sync (some m) = not (str_eq m.status "SUSPENDED")

abbrev pub require_device : Result DeviceReason Device → Result SyncError (Unit {0})
require_device (returns device) = returns tt
require_device (throws DeviceReason.device_not_found) = throws SyncError.device_identifier_required
require_device (throws DeviceReason.device_revoked) = throws SyncError.device_revoked

-- The guards of a batch, in their order.
unfoldable pub check_batch : SyncDirectory → SyncParams → Result SyncError (Unit {0})
unfolding validate_device_status
check_batch dir p = do
  require (not (is_empty p.device_identifier)) SyncError.device_identifier_required
  require (leb (length p.events) 75) SyncError.batch_size_exceeded
  require (user_may_sync (find? (is_user p.actor_id) dir.users)) SyncError.user_suspended
  require (member_may_sync (find? (is_member p.school_id p.actor_id) dir.memberships))
      SyncError.user_suspended
  require_device (validate_device_status p.school_id p.device_identifier dir.devices)

abbrev pub role_or_teacher : Option UserRole → UserRole
role_or_teacher none = UserRole.teacher
role_or_teacher (some role) = role

abbrev pub is_accepted_item : SyncBatchResultItem → Bool
is_accepted_item i = accepted i.status
  where
    accepted : ItemStatus → Bool
    accepted (ItemStatus.accepted duplicate) = true
    accepted _ = false

abbrev pub is_already_processed : SyncBatchResultItem → Bool
is_already_processed i = already i.status
  where
    already : ItemStatus → Bool
    already ItemStatus.already_processed = true
    already _ = false

abbrev pub is_rejected : SyncBatchResultItem → Bool
is_rejected i = rejected i.status
  where
    rejected : ItemStatus → Bool
    rejected (ItemStatus.rejected failure) = true
    rejected _ = false

abbrev pub count_items : (SyncBatchResultItem → Bool) → List SyncBatchResultItem → ℕ
count_items q results = length (filterb q results)

abbrev pub batch_log : SyncParams → EventRun → BatchLog
batch_log p run = record {
  school_id = p.school_id;
  actor_id = p.actor_id;
  total_events = length p.events;
  accepted_count = count_items is_accepted_item run.results;
  duplicate_count = count_items is_already_processed run.results;
  rejected_count = count_items is_rejected run.results;
  clock_skew_corrected_count = run.clock_skew_corrected_count;
}

pub record Synced : Type 0 where
  pub db : SyncDb
  pub answer : Result SyncError SyncResponse

abbrev pub response_of : List ServerMapping → EventRun → SyncResponse
response_of mappings run = record {
  processed_count = length run.results;
  results = run.results;
  session_mappings = mappings;
}

unfoldable pub finish_batch : SyncParams → List ServerMapping → EventRun → Synced
finish_batch p mappings run = record {
  db = record run.db { batches = run.db.batches ++ batch_log p run ∷ [] };
  answer = returns (response_of mappings run);
}

-- A statement that has failed outside of an inner transaction.
abbrev pub is_aborted : SyncBatchResultItem → Bool
is_aborted i = aborted i.status
  where
    aborted : ItemStatus → Bool
    aborted (ItemStatus.rejected Failure.transaction_aborted) = true
    aborted _ = false

-- The whole call runs in one transaction of the request. Where a statement has aborted it, the entry
-- of the audit log fails too: the call throws, and the database is as it was `before`.
abbrev pub commit_batch : SyncParams → SyncDb → List ServerMapping → EventRun → Synced
commit_batch p before mappings run =
    if anyb is_aborted run.results
    then record { db = before; answer = throws SyncError.transaction_aborted }
    else finish_batch p mappings run

-- The hash of a token, and the day of an instant in UTC.
module _ (sha256 : List ℕ → ℕ) (utc_date : ℕ → ℕ) (dir : SyncDirectory) where
  abbrev pub sync_reconciled :
      SyncParams → ℕ → SyncDb → SyncDb → Result SyncError (List ServerMapping) → Synced
  sync_reconciled p now before db (throws e) = record { db = db; answer = throws e }
  sync_reconciled p now before db (returns mappings) = commit_batch p before mappings (
      sync_events sha256 dir.directory p.school_id p.actor_id (role_or_teacher p.user_role) now
        mappings p.events db)

  abbrev pub reconcile_batch : SyncParams → ℕ → SyncDb → Reconciliation
  reconcile_batch p now db =
      reconcile_sessions dir.directory p.school_id p.actor_id (role_or_teacher p.user_role) now
        (session_payloads (utc_date now) p.sessions p.events) db

  abbrev pub sync_checked : SyncParams → ℕ → SyncDb → Result SyncError (Unit {0}) → Synced
  sync_checked p now db (throws e) = record { db = db; answer = throws e }
  sync_checked p now db (returns _) =
      let r = reconcile_batch p now db in sync_reconciled p now db r.db r.mappings

  unfoldable pub sync_attendance_events : SyncParams → ℕ → SyncDb → Synced
  unfolding check_batch finish_batch reconcile_sessions session_payloads sync_events
  sync_attendance_events p now db = sync_checked p now db (check_batch dir p)
