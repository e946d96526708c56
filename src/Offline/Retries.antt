-- ===== src/Offline/Retries.antt =====
-- What sending off the outbox keeps: every event, and the bound on retries.
use Prim.Native.String.{String}
use offline_qr_school_attend.Common.{
  ℕ, ◌+◌, ◌≤◌, ◌<◌, ◌≡◌, refl, ap, ◌∙◌, Bool, true, Option, none, some, List, [], ◌∷◌, map, ◌==◌,
  find?, All, arith, inl, inr, Bool-cases,
}
use offline_qr_school_attend.Offline.Events.{
  OutboxEvent, SyncStatus, FailureClass, update_event, failed_event, mark_sync_failure,
  classify_sync_failure,
}
use offline_qr_school_attend.Offline.Outbox.{
  synced_event, mark_syncing, apply_verdict, apply_found, apply_result, apply_results, fail_batch,
  apply_reply, Verdict, SyncResult, Reply, answered, network_error, Tally, Progress, has_id,
}

abbrev pub event_id : OutboxEvent → ℕ
event_id e = e.client_event_id

abbrev pub IsBounded : OutboxEvent → Type 0
IsBounded e = e.retry_count ≤ 5

-- A row that may be sent.
abbrev pub HasRetry : OutboxEvent → Type 0
HasRetry e = e.retry_count < 5

-- A change of the outbox that keeps its identifiers and the bound.
pub record Keeps (events events' : List OutboxEvent) : Type 0 where
  pub ids : map event_id events' ≡ map event_id events
  pub bounded : All IsBounded events → All IsBounded events'

pub Keeps-refl : (es : List OutboxEvent) → Keeps es es
Keeps-refl es = record { ids = refl; bounded = λ h. h }

pub Keeps-trans : (a b c : List OutboxEvent) → Keeps a b → Keeps b c → Keeps a c
Keeps-trans a b c h k = record { ids = k.ids ∙ h.ids; bounded = λ x. k.bounded (h.bounded x) }

update_event-ids :
    (id : ℕ) (f : OutboxEvent → OutboxEvent) (es : List OutboxEvent)
    → ((e : OutboxEvent) → (e.client_event_id == id) ≡ true → event_id (f e) ≡ event_id e)
    → map event_id (update_event id f es) ≡ map event_id es
update_event-ids id f [] h = refl
update_event-ids id f (e ∷ es) h = elim (Bool-cases (e.client_event_id == id)) [
  | inl same ↦ rw same (ground (arith, h e same, update_event-ids id f es h))
  | inr other ↦ rw other (ap (λ xs. event_id e ∷ xs) (update_event-ids id f es h))
]

update_event-IsBounded :
    (id : ℕ) (f : OutboxEvent → OutboxEvent) (es : List OutboxEvent)
    → ((e : OutboxEvent) → IsBounded e → IsBounded (f e))
    → All IsBounded es
    → All IsBounded (update_event id f es)
update_event-IsBounded id f [] h k = tt
update_event-IsBounded id f (e ∷ es) h (p, k) = elim (Bool-cases (e.client_event_id == id)) [
  | inl same ↦ rw same (h e p, update_event-IsBounded id f es h k)
  | inr other ↦ rw other (p, update_event-IsBounded id f es h k)
]

mark_sync_failure-Keeps :
    (event : OutboxEvent) (error : String) (class : FailureClass) (es : List OutboxEvent)
    → HasRetry event
    → Keeps es (mark_sync_failure event error class es)
mark_sync_failure-Keeps event error class es h = record {
  ids =
      update_event-ids event.client_event_id (failed_event error class (event.retry_count + 1)) es
        (λ e same. refl);
  bounded =
      update_event-IsBounded event.client_event_id
        (failed_event error class (event.retry_count + 1)) es (λ e k. omega (arith, h));
}

synced-Keeps :
    (event : OutboxEvent) (es : List OutboxEvent)
    → HasRetry event
    → Keeps es (update_event event.client_event_id (λ e. synced_event event) es)
synced-Keeps event es h = record {
  ids =
      update_event-ids event.client_event_id (λ e. synced_event event) es
        (λ e same. ground (arith, same));
  bounded =
      update_event-IsBounded event.client_event_id (λ e. synced_event event) es
        (λ e k. omega (arith, h));
}

pub mark_syncing-Keeps : (batch es : List OutboxEvent) → Keeps es (mark_syncing batch es)
mark_syncing-Keeps [] es = Keeps-refl es
mark_syncing-Keeps (b ∷ batch) es =
    let f = λ (e : OutboxEvent). record e { sync_status = SyncStatus.syncing } in
    Keeps-trans es (update_event b.client_event_id f es) (mark_syncing (b ∷ batch) es)
      (record {
        ids = update_event-ids b.client_event_id f es (λ e same. refl);
        bounded = update_event-IsBounded b.client_event_id f es (λ e k. k);
      })
      (mark_syncing-Keeps batch (update_event b.client_event_id f es))

apply_verdict-Keeps :
    (event : OutboxEvent) (v : Verdict) (t : Tally)
    → HasRetry event
    → Keeps t.outbox (apply_verdict event v t).outbox
apply_verdict-Keeps event Verdict.accepted t h = synced-Keeps event t.outbox h
apply_verdict-Keeps event Verdict.already_processed t h = synced-Keeps event t.outbox h
apply_verdict-Keeps event (Verdict.rejected error) t h =
    mark_sync_failure-Keeps event error (classify_sync_failure error) t.outbox h

find?-HasRetry :
    (q : OutboxEvent → Bool) (batch : List OutboxEvent) (e : OutboxEvent)
    → All HasRetry batch
    → find? q batch ≡ some e
    → HasRetry e
find?-HasRetry q [] e h f = absurd (cc)
find?-HasRetry q (b ∷ batch) e (p, h) f = ground (arith, find?-HasRetry q batch e h)

apply_found-Keeps :
    (o : Option OutboxEvent) (v : Verdict) (t : Tally)
    → ((e : OutboxEvent) → o ≡ some e → HasRetry e)
    → Keeps t.outbox (apply_found o v t).outbox
apply_found-Keeps none v t h = Keeps-refl t.outbox
apply_found-Keeps (some e) v t h = apply_verdict-Keeps e v t (h e refl)

apply_results-Keeps :
    (batch : List OutboxEvent) (rs : List SyncResult) (t : Tally)
    → All HasRetry batch
    → Keeps t.outbox (apply_results batch rs t).outbox
unfolding apply_results
apply_results-Keeps batch [] t h = Keeps-refl t.outbox
apply_results-Keeps batch (r ∷ rs) t h =
    Keeps-trans t.outbox (apply_result batch r t).outbox (apply_results batch (r ∷ rs) t).outbox
      (apply_found-Keeps (find? (has_id r.client_event_id) batch) r.verdict t
        (λ e f. find?-HasRetry (has_id r.client_event_id) batch e h f))
      (apply_results-Keeps batch rs (apply_result batch r t) h)

fail_batch-Keeps :
    (error : String) (batch es : List OutboxEvent)
    → All HasRetry batch
    → Keeps es (fail_batch error batch es)
unfolding fail_batch
fail_batch-Keeps error [] es h = Keeps-refl es
fail_batch-Keeps error (b ∷ batch) es (p, h) =
    Keeps-trans es (mark_sync_failure b error FailureClass.retryable es)
      (fail_batch error (b ∷ batch) es)
      (mark_sync_failure-Keeps b error FailureClass.retryable es p)
      (fail_batch-Keeps error batch (mark_sync_failure b error FailureClass.retryable es) h)

pub apply_reply-Keeps :
    (batch : List OutboxEvent) (r : Reply) (p : Progress)
    → All HasRetry batch
    → Keeps p.store.outbox (apply_reply batch r p).store.outbox
unfolding apply_reply
apply_reply-Keeps batch (answered results mappings) p h =
    apply_results-Keeps batch results
      (record {
        outbox = p.store.outbox;
        synced_count = p.synced_count;
        failed_count = p.failed_count;
      })
      h
apply_reply-Keeps batch (network_error error) p h = fail_batch-Keeps error batch p.store.outbox h
