-- ===== src/Offline/Outbox.antt =====
-- The outbox of src/offline/offlineDb.ts, and how `syncOutboxEvents` sends it off. A reply of the
-- server is an argument: a function of the number of the batch and of its events.
use Prim.Native.String.{String}
use offline_qr_school_attend.Common.{
  take, drop, ℕ, zero, suc, ◌+◌, Bool, true, false, ◌&&◌, not, Option, none, some, List, [], ◌∷◌,
  ◌++◌, map, ◌==◌, ltb, find?, filterb, length, if◌then◌else◌,
}
use offline_qr_school_attend.Offline.Events.{
  SyncStatus, FailureClass, OutboxEvent, OfflineSession, OfflineStore, max_sync_retries,
  sync_batch_size, classify_sync_failure, update_event, mark_sync_failure,
}

abbrev pub is_syncing : SyncStatus → Bool
is_syncing SyncStatus.syncing = true
is_syncing _ = false

abbrev pub is_pending : SyncStatus → Bool
is_pending SyncStatus.pending = true
is_pending _ = false

abbrev pub is_failed : SyncStatus → Bool
is_failed SyncStatus.failed = true
is_failed _ = false

-- Events that a crash has left SYNCING are queued again.
abbrev pub requeue_event : ℕ → OutboxEvent → OutboxEvent
requeue_event school e =
    if is_syncing e.sync_status && e.school_id == school
    then record e {
      sync_status = SyncStatus.failed;
      failure_class = some FailureClass.retryable;
      sync_error = some "SYNC_INTERRUPTED";
    }
    else e

abbrev pub is_final_class : Option FailureClass → Bool
is_final_class (some FailureClass.permanent) = true
is_final_class (some FailureClass.conflicting) = true
is_final_class _ = false

abbrev pub may_retry : OutboxEvent → Bool
may_retry e = ltb e.retry_count max_sync_retries && not (is_final_class e.failure_class)

unfoldable pub events_to_sync : ℕ → List OutboxEvent → List OutboxEvent
events_to_sync school events = filterb may_retry (
    filterb (λ (e : OutboxEvent). is_pending e.sync_status && e.school_id == school) events
    ++ filterb (λ (e : OutboxEvent). is_failed e.sync_status && e.school_id == school) events)

pub data Verdict : Type 0 where
  accepted already_processed : Verdict
  rejected : String → Verdict

pub record SyncResult : Type 0 where
  pub client_event_id : ℕ
  pub verdict : Verdict

pub record SessionMapping : Type 0 where
  pub client_session_id : ℕ
  pub server_session_id : ℕ

-- The answer to a batch, or the message of the error that the request ended in.
pub data Reply : Type 0 where
  answered : List SyncResult → List SessionMapping → Reply
  network_error : String → Reply

abbrev pub mark_syncing : List OutboxEvent → List OutboxEvent → List OutboxEvent
mark_syncing [] events = events
mark_syncing (b ∷ batch) events =
    mark_syncing batch
      (update_event b.client_event_id (λ e. record e { sync_status = SyncStatus.syncing }) events)

-- `put(cleaned)`: the row is what was read, without its token and its errors.
abbrev pub synced_event : OutboxEvent → OutboxEvent
synced_event event = record event {
  sync_status = SyncStatus.synced;
  sync_error = none;
  failure_class = none;
  raw_token = none;
}

pub record Tally : Type 0 where
  pub outbox : List OutboxEvent
  pub synced_count : ℕ
  pub failed_count : ℕ

abbrev pub count_synced : OutboxEvent → Tally → Tally
count_synced event t = record t {
  outbox = update_event event.client_event_id (λ e. synced_event event) t.outbox;
  synced_count = t.synced_count + 1;
}

abbrev pub apply_verdict : OutboxEvent → Verdict → Tally → Tally
apply_verdict event Verdict.accepted t = count_synced event t
apply_verdict event Verdict.already_processed t = count_synced event t
apply_verdict event (Verdict.rejected error) t = record t {
  outbox = mark_sync_failure event error (classify_sync_failure error) t.outbox;
  failed_count = t.failed_count + 1;
}

abbrev pub has_id : ℕ → OutboxEvent → Bool
has_id id e = e.client_event_id == id

abbrev pub apply_found : Option OutboxEvent → Verdict → Tally → Tally
apply_found none v t = t
apply_found (some event) v t = apply_verdict event v t

abbrev pub apply_result : List OutboxEvent → SyncResult → Tally → Tally
apply_result batch r t = apply_found (find? (has_id r.client_event_id) batch) r.verdict t

unfoldable pub apply_results : List OutboxEvent → List SyncResult → Tally → Tally
apply_results batch [] t = t
apply_results batch (r ∷ rs) t = apply_results batch rs (apply_result batch r t)

unfoldable pub fail_batch : String → List OutboxEvent → List OutboxEvent → List OutboxEvent
fail_batch error [] events = events
fail_batch error (b ∷ batch) events =
    fail_batch error batch (mark_sync_failure b error FailureClass.retryable events)

unfoldable pub apply_mappings : List SessionMapping → List OfflineSession → List OfflineSession
apply_mappings [] sessions = sessions
apply_mappings (m ∷ ms) sessions = apply_mappings ms (
    map
      (λ (s : OfflineSession).
        if s.id == m.client_session_id
        then record s { server_session_id = some m.server_session_id }
        else s)
      sessions)

pub record Progress : Type 0 where
  pub store : OfflineStore
  pub synced_count : ℕ
  pub failed_count : ℕ
  pub results : List SyncResult
  pub session_mappings : List SessionMapping
  pub last_error : Option String

unfoldable pub apply_reply : List OutboxEvent → Reply → Progress → Progress
unfolding apply_results fail_batch apply_mappings
apply_reply batch (answered results mappings) p =
    let t = apply_results batch results (record {
      outbox = p.store.outbox;
      synced_count = p.synced_count;
      failed_count = p.failed_count;
    }) in
    record {
      store = record { outbox = t.outbox; sessions = apply_mappings mappings p.store.sessions };
      synced_count = t.synced_count;
      failed_count = t.failed_count;
      results = p.results ++ results;
      session_mappings = p.session_mappings ++ mappings;
      last_error = p.last_error;
    }
apply_reply batch (network_error error) p = record {
  store = record { outbox = fail_batch error batch p.store.outbox; sessions = p.store.sessions };
  synced_count = p.synced_count;
  failed_count = p.failed_count + length batch;
  results = p.results;
  session_mappings = p.session_mappings;
  last_error = some error;
}

-- `for (offset = 0; offset < events.length; offset += SYNC_BATCH_SIZE)`, the slices of the loop.
-- The first argument bounds their number.
unfoldable pub batches : ℕ → List OutboxEvent → List (List OutboxEvent)
batches n [] = []
batches zero (e ∷ es) = []
batches (suc n) (e ∷ es) = take sync_batch_size (e ∷ es) ∷ batches n (drop sync_batch_size (e ∷ es))

module _ (server : ℕ → List OutboxEvent → Reply) where
  abbrev pub send_batch : ℕ → List OutboxEvent → Progress → Progress
  send_batch k batch p =
      apply_reply batch (server k batch)
        (record p { store = record p.store { outbox = mark_syncing batch p.store.outbox } })

  unfoldable pub send_batches : ℕ → List (List OutboxEvent) → Progress → Progress
  unfolding apply_reply
  send_batches k [] p = p
  send_batches k (b ∷ bs) p = send_batches (suc k) bs (send_batch k b p)

  -- `syncOutboxEvents`, for a school and a device that are given.
  unfoldable pub sync_outbox_events : ℕ → OfflineStore → Progress
  unfolding events_to_sync batches send_batches
  sync_outbox_events school store =
      let requeued = map (requeue_event school) store.outbox in
      let events = events_to_sync school requeued in
      send_batches 0 (batches (length events) events) (record {
        store = record store { outbox = requeued };
        synced_count = 0;
        failed_count = 0;
        results = [];
        session_mappings = [];
        last_error = none;
      })

-- The error that the call ends in: only where no batch was answered and nothing was synced.
abbrev no_results : List SyncResult → Bool
no_results [] = true
no_results (_ ∷ _) = false

unfoldable pub thrown_error : Progress → Option String
thrown_error p = if p.synced_count == 0 && no_results p.results then p.last_error else none
