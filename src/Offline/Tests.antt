-- ===== src/Offline/Tests.antt =====
-- Runs of the outbox, and its theorems at concrete inputs.
use offline_qr_school_attend.Common.{
  ℕ, ◌≤◌, ◌≡◌, refl, none, some, List, [], ◌∷◌, map, All, length, arith,
}
use offline_qr_school_attend.Offline.Flush.{concat, batches-concat, sync_outbox_events-keeps}
use offline_qr_school_attend.Offline.Events.{
  OutboxEvent, SyncStatus, FailureClass, OfflineStore, classify_sync_failure,
}
use offline_qr_school_attend.Offline.Outbox.{
  Reply, answered, network_error, Verdict, batches, sync_outbox_events,
}
use offline_qr_school_attend.Offline.Retries.{event_id, IsBounded}

abbrev event : ℕ → SyncStatus → ℕ → OutboxEvent
event id status retries = record {
  client_event_id = id;
  school_id = 1;
  client_session_id = 7;
  raw_token = some (b'q' ∷ []);
  sync_status = status;
  sync_error = none;
  failure_class = none;
  retry_count = retries;
}

-- One event is new, one was interrupted, one has failed four times.
abbrev store : OfflineStore
store = record {
  outbox =
      event 1 SyncStatus.pending 0
      ∷ event 2 SyncStatus.syncing 1
      ∷ event 3 SyncStatus.failed 4
      ∷ [];
  sessions = record { id = 7; server_session_id = none } ∷ [];
}

-- A server that takes the first event, finds the second in conflict and leaves the third out.
abbrev partial_server : ℕ → List OutboxEvent → Reply
partial_server k batch =
    answered
      (record { client_event_id = 1; verdict = Verdict.accepted }
        ∷ record { client_event_id = 2; verdict = Verdict.rejected "SESSION_CONFLICT" }
        ∷ [])
      (record { client_session_id = 7; server_session_id = 900 } ∷ [])

abbrev no_server : ℕ → List OutboxEvent → Reply
no_server k batch = network_error "Failed to fetch"

abbrev statuses : List OutboxEvent → List SyncStatus
statuses es = map (λ (e : OutboxEvent). e.sync_status) es

partial_run :
    statuses (sync_outbox_events partial_server 1 store).store.outbox
    ≡ SyncStatus.synced ∷ SyncStatus.conflict ∷ SyncStatus.syncing ∷ []
unfolding sync_outbox_events classify_sync_failure
partial_run = refl

failed_run :
    statuses (sync_outbox_events no_server 1 store).store.outbox
    ≡ SyncStatus.failed ∷ SyncStatus.failed ∷ SyncStatus.permanent_failure ∷ []
unfolding sync_outbox_events
failed_run = refl

permanent_error : classify_sync_failure "REVOKED_QR_TOKEN" ≡ FailureClass.permanent
unfolding classify_sync_failure
permanent_error = refl

sync_outbox_events-keeps_example :
    let after = (sync_outbox_events partial_server 1 store).store.outbox in
    (map event_id after ≡ map event_id store.outbox) × All IsBounded after
sync_outbox_events-keeps_example =
    sync_outbox_events-keeps partial_server 1 store (omega arith, (omega arith, (omega arith, tt)))

batches-concat_example :
    (concat (batches 3 store.outbox) ≡ store.outbox)
    × All (λ b. length b ≤ 75) (batches 3 store.outbox)
batches-concat_example = batches-concat 3 store.outbox (omega arith)
