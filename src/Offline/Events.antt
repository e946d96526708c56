-- ===== src/Offline/Events.antt =====
-- The events of the outbox of src/services/offlineSyncService.ts, and the failures marked on them.
use Prim.Native.Char.{code}
use Prim.Native.String.{String}
use text.Mathlib.Text.{◌==◌ as str_eq}
use offline_qr_school_attend.Common.{
  ℕ, ◌+◌, Bool, true, false, ◌&&◌, ◌||◌, Option, some, List, [], ◌∷◌, map, ◌==◌, leb, anyb,
  if◌then◌else◌,
}

pub data SyncStatus : Type 0 where
  pending syncing synced failed permanent_failure conflict : SyncStatus

pub data FailureClass : Type 0 where
  retryable permanent conflicting : FailureClass

pub record OutboxEvent : Type 0 where
  pub client_event_id : ℕ
  pub school_id : ℕ
  pub client_session_id : ℕ
  pub raw_token : Option (List ℕ)
  pub sync_status : SyncStatus
  pub sync_error : Option String
  pub failure_class : Option FailureClass
  pub retry_count : ℕ

pub record OfflineSession : Type 0 where
  pub id : ℕ
  pub server_session_id : Option ℕ

pub record OfflineStore : Type 0 where
  pub outbox : List OutboxEvent
  pub sessions : List OfflineSession

abbrev pub max_sync_retries : ℕ
max_sync_retries = 5

abbrev pub sync_batch_size : ℕ
sync_batch_size = 75

-- `text.includes(part)`
abbrev starts_with : String → String → Bool
starts_with String.[] s = true
starts_with (String.◌∷◌ c part) String.[] = false
starts_with (String.◌∷◌ c part) (String.◌∷◌ d s) = code c == code d && starts_with part s

abbrev pub includes : String → String → Bool
includes part String.[] = starts_with part ""
includes part (String.◌∷◌ d s) = starts_with part (String.◌∷◌ d s) || includes part s

abbrev permanent_errors : List String
permanent_errors =
    "INVALID_QR_TOKEN" ∷ "REVOKED_QR_TOKEN" ∷ "WRONG_SCHOOL_QR" ∷ "STUDENT_NOT_IN_ROSTER"
    ∷ "SESSION_NOT_FOUND" ∷ "DEVICE_REVOKED" ∷ "DEVICE_IDENTIFIER_REQUIRED"
    ∷ "UNAUTHORIZED_TEACHER_NOT_ASSIGNED" ∷ []

-- `classifySyncFailure`
unfoldable pub classify_sync_failure : String → FailureClass
classify_sync_failure error =
    if str_eq error "FINALIZED_SESSION_LOCKED" || includes "CONFLICT" error
    then FailureClass.conflicting
    else (if anyb (str_eq error) permanent_errors
        then FailureClass.permanent
        else FailureClass.retryable)

-- `offlineDb.syncOutbox.update(id, …)`
abbrev pub update_event : ℕ → (OutboxEvent → OutboxEvent) → List OutboxEvent → List OutboxEvent
update_event id f events =
    map (λ (e : OutboxEvent). if e.client_event_id == id then f e else e) events

abbrev pub is_exhausted : FailureClass → ℕ → Bool
is_exhausted FailureClass.retryable n = leb max_sync_retries n
is_exhausted _ n = false

abbrev pub failure_status : FailureClass → Bool → SyncStatus
failure_status FailureClass.conflicting exhausted = SyncStatus.conflict
failure_status FailureClass.permanent exhausted = SyncStatus.permanent_failure
failure_status FailureClass.retryable exhausted =
    if exhausted then SyncStatus.permanent_failure else SyncStatus.failed

abbrev pub failed_event : String → FailureClass → ℕ → OutboxEvent → OutboxEvent
failed_event error class retries e =
    let exhausted = is_exhausted class retries in
    record e {
      sync_status = failure_status class exhausted;
      failure_class = some (if exhausted then FailureClass.permanent else class);
      sync_error = some error;
      retry_count = retries;
    }

-- `markSyncFailure`, on the event as it was read before it was sent.
abbrev pub mark_sync_failure :
    OutboxEvent → String → FailureClass → List OutboxEvent → List OutboxEvent
mark_sync_failure event error class events =
    update_event event.client_event_id (failed_event error class (event.retry_count + 1)) events
