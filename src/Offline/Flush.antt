-- ===== src/Offline/Flush.antt =====
-- A whole run of `syncOutboxEvents`: the slices it sends, and what the outbox keeps.
use offline_qr_school_attend.Common.{
  take, drop, ℕ, zero, suc, ◌≤◌, ◌≡◌, refl, ap, ◌∙◌, ◌&&◌, List, [], ◌∷◌, ◌++◌, map, ◌==◌, filterb,
  length, All, none, arith, inl, inr, Bool-cases,
}
use offline_qr_school_attend.Offline.Events.{OutboxEvent, OfflineStore, sync_batch_size}
use offline_qr_school_attend.Offline.Outbox.{
  Reply, Progress, requeue_event, is_syncing, may_retry, events_to_sync, is_pending, is_failed,
  batches, send_batch, send_batches, sync_outbox_events, mark_syncing,
}
use offline_qr_school_attend.Offline.Retries.{
  event_id, IsBounded, HasRetry, Keeps, Keeps-refl, Keeps-trans, mark_syncing-Keeps,
  apply_reply-Keeps,
}

requeue-Keeps : (school : ℕ) (es : List OutboxEvent) → Keeps es (map (requeue_event school) es)
requeue-Keeps school [] = Keeps-refl []
requeue-Keeps school (e ∷ es) =
    let k = requeue-Keeps school es in
    elim (Bool-cases (is_syncing e.sync_status && e.school_id == school)) [
      | inl stuck ↦
          rw stuck (record {
            ids = ap (λ xs. event_id e ∷ xs) k.ids;
            bounded = λ (p, h). (p, k.bounded h);
          })
      | inr other ↦
          rw other (record {
            ids = ap (λ xs. event_id e ∷ xs) k.ids;
            bounded = λ (p, h). (p, k.bounded h);
          })
    ]

filterb-HasRetry : (es : List OutboxEvent) → All HasRetry (filterb may_retry es)
filterb-HasRetry [] = tt
filterb-HasRetry (e ∷ es) = elim (Bool-cases (may_retry e)) [
  | inl may ↦ rw may (ground (arith, may), filterb-HasRetry es)
  | inr spent ↦ rw spent (filterb-HasRetry es)
]

take-HasRetry : (n : ℕ) (es : List OutboxEvent) → All HasRetry es → All HasRetry (take n es)
take-HasRetry zero es h = tt
take-HasRetry (suc n) [] h = tt
take-HasRetry (suc n) (e ∷ es) (p, h) = (p, take-HasRetry n es h)

drop-HasRetry : (n : ℕ) (es : List OutboxEvent) → All HasRetry es → All HasRetry (drop n es)
drop-HasRetry zero es h = h
drop-HasRetry (suc n) [] h = tt
drop-HasRetry (suc n) (e ∷ es) (p, h) = drop-HasRetry n es h

batches-HasRetry :
    (n : ℕ) (es : List OutboxEvent) → All HasRetry es → All (All HasRetry) (batches n es)
unfolding batches
batches-HasRetry zero [] h = tt
batches-HasRetry (suc n) [] h = tt
batches-HasRetry zero (e ∷ es) h = tt
batches-HasRetry (suc n) (e ∷ es) h = (
  take-HasRetry sync_batch_size (e ∷ es) h,
  batches-HasRetry n (drop sync_batch_size (e ∷ es)) (drop-HasRetry sync_batch_size (e ∷ es) h),
)

-- The slices, put together.
abbrev pub concat : List (List OutboxEvent) → List OutboxEvent
concat [] = []
concat (b ∷ bs) = b ++ concat bs

take-drop : (n : ℕ) (es : List OutboxEvent) → take n es ++ drop n es ≡ es
take-drop zero es = refl
take-drop (suc n) [] = refl
take-drop (suc n) (e ∷ es) = ap (λ xs. e ∷ xs) (take-drop n es)

length-take_le : (n : ℕ) (es : List OutboxEvent) → length (take n es) ≤ n
length-take_le zero es = omega arith
length-take_le (suc n) [] = omega arith
length-take_le (suc n) (e ∷ es) = omega (arith, length-take_le n es)

length-drop_le : (n : ℕ) (es : List OutboxEvent) → length (drop n es) ≤ length es
length-drop_le zero es = omega arith
length-drop_le (suc n) [] = omega arith
length-drop_le (suc n) (e ∷ es) = omega (arith, length-drop_le n es)

-- With a bound of at least the number of events, the slices hold the events in their order, and
-- none of them is longer than SYNC_BATCH_SIZE.
pub batches-concat :
    (n : ℕ) (es : List OutboxEvent)
    → length es ≤ n
    → (concat (batches n es) ≡ es) × All (λ b. length b ≤ 75) (batches n es)
unfolding batches
batches-concat zero [] h = (refl, tt)
batches-concat (suc n) [] h = (refl, tt)
batches-concat zero (e ∷ es) h = absurd (omega (arith, h))
batches-concat (suc n) (e ∷ es) h =
    let rest = drop 74 es in
    let (same, short) = batches-concat n rest (omega (arith, h, length-drop_le 74 es)) in
    (
      ap (λ xs. e ∷ (take 74 es ++ xs)) same ∙ ap (λ xs. e ∷ xs) (take-drop 74 es),
      (omega (arith, length-take_le 74 es), short),
    )

module _ (server : ℕ → List OutboxEvent → Reply) where
  send_batch-Keeps :
      (k : ℕ) (b : List OutboxEvent) (p : Progress)
      → All HasRetry b
      → Keeps p.store.outbox (send_batch server k b p).store.outbox
  send_batch-Keeps k b p h =
      Keeps-trans p.store.outbox (mark_syncing b p.store.outbox)
        (send_batch server k b p).store.outbox (mark_syncing-Keeps b p.store.outbox)
        (apply_reply-Keeps b (server k b)
          (record p { store = record p.store { outbox = mark_syncing b p.store.outbox } }) h)

  send_batches-Keeps :
      (k : ℕ) (bs : List (List OutboxEvent)) (p : Progress)
      → All (All HasRetry) bs
      → Keeps p.store.outbox (send_batches server k bs p).store.outbox
  unfolding send_batches
  send_batches-Keeps k [] p h = Keeps-refl p.store.outbox
  send_batches-Keeps k (b ∷ bs) p (q, h) =
      Keeps-trans p.store.outbox (send_batch server k b p).store.outbox
        (send_batches server k (b ∷ bs) p).store.outbox (send_batch-Keeps k b p q)
        (send_batches-Keeps (suc k) bs (send_batch server k b p) h)

  sync_outbox_events-Keeps :
      (school : ℕ) (store : OfflineStore)
      → Keeps store.outbox (sync_outbox_events server school store).store.outbox
  unfolding sync_outbox_events
  sync_outbox_events-Keeps school store =
      let requeued = map (requeue_event school) store.outbox in
      let events = events_to_sync school requeued in
      let start : Progress = record {
        store = record store { outbox = requeued };
        synced_count = 0;
        failed_count = 0;
        results = [];
        session_mappings = [];
        last_error = none;
      } in
      Keeps-trans store.outbox requeued (sync_outbox_events server school store).store.outbox
        (requeue-Keeps school store.outbox)
        (send_batches-Keeps 0 (batches (length events) events) start (
          batches-HasRetry (length events) events (
            filterb-HasRetry (
              filterb (λ (e : OutboxEvent). is_pending e.sync_status && e.school_id == school)
                requeued
              ++ filterb (λ (e : OutboxEvent). is_failed e.sync_status && e.school_id == school)
                  requeued))))

  -- Whatever the server answers, and however often it does not, the outbox loses no event and gains
  -- none, and no event is counted beyond MAX_SYNC_RETRIES attempts, where none was before.
  pub sync_outbox_events-keeps :
      (school : ℕ) (store : OfflineStore)
      → All IsBounded store.outbox
      → let after = (sync_outbox_events server school store).store.outbox in
        (map event_id after ≡ map event_id store.outbox) × All IsBounded after
  sync_outbox_events-keeps school store h =
      let k = sync_outbox_events-Keeps school store in (k.ids, k.bounded h)
