-- ===== src/Sync/Resend.antt =====
-- A batch that is sent a second time, as the client does where the answer was lost.
use mathlib.Core.Path.{subst}
use offline_qr_school_attend.Common.{
  ℕ, ◌≡◌, ap, ◌∙◌, refl, true, false, List, map, anyb, inl, inr, ◌⊎◌, Bool-cases,
}
use offline_qr_school_attend.Common.Result.{throws, returns}
use offline_qr_school_attend.Sync.Types.{SyncParams, SyncError, SyncResponse, SyncDirectory, SyncDb}
use offline_qr_school_attend.Sync.Sessions.{session_payloads}
use offline_qr_school_attend.Sync.Events.{EventRun}
use offline_qr_school_attend.Sync.Batch.{
  is_rejected, is_aborted, Synced, response_of, finish_batch, role_or_teacher,
}
use offline_qr_school_attend.Sync.Payloads.{HasDistinctIds}
use offline_qr_school_attend.Sync.Rerun.{processed_item, Repeats, events_run-Repeats}
use offline_qr_school_attend.Sync.Answered.{
  sync, reconciling, batch_run, sync-Answers, sync-Later, sync-again, commit_batch-finishes,
  processed_is_fine, unchanged_run,
}

module _ (sha256 : List ℕ → ℕ) (utc_date : ℕ → ℕ) (dir : SyncDirectory) (p : SyncParams) where
  -- What a second call answers: its sessions are those of the first, and its events repeat.
  abbrev pub IsAnsweredAgain : ℕ → SyncDb → SyncResponse → Type 0
  IsAnsweredAgain later b r =
      (r2 : SyncResponse) × ((sync sha256 utc_date dir p later b).answer ≡ returns r2)
      × (r2.session_mappings ≡ r.session_mappings)
      × Repeats r.results r2.results

  -- A call that is rolled back: only a batch with an event that the first call rejected.
  abbrev pub IsRolledBack : ℕ → SyncDb → SyncResponse → Type 0
  IsRolledBack later b r =
      (sync sha256 utc_date dir p later b
        ≡ record { db = b; answer = throws SyncError.transaction_aborted })
      × (anyb is_rejected r.results ≡ true)

  -- A batch whose client sessions differ by more than the case of their identifiers, that is
  -- answered, and is sent again on the same day of UTC, is answered again: each client session is
  -- mapped to the same session of the server, and each event that the first call did not reject is
  -- answered as processed, in its place. Only where the first call rejected an event, the second
  -- may instead throw that its transaction was aborted, and then it leaves the database as it was.
  pub sync_attendance_events-resent :
      (now later : ℕ) (db : SyncDb) (r : SyncResponse)
      → HasDistinctIds (session_payloads (utc_date now) p.sessions p.events)
      → utc_date later ≡ utc_date now
      → (sync sha256 utc_date dir p now db).answer ≡ returns r
      → IsAnsweredAgain later (sync sha256 utc_date dir p now db).db r
        ⊎ IsRolledBack later (sync sha256 utc_date dir p now db).db r
  unfolding finish_batch
  sync_attendance_events-resent now later db r ids day h =
      let b = (sync sha256 utc_date dir p now db).db in
      let a = sync-Answers sha256 utc_date dir p now db r h in
      let second = batch_run sha256 utc_date dir p later a.mappings b in
      let again = sync-again sha256 utc_date dir p now later db r a ids day in
      elim (Bool-cases (anyb is_aborted second.results)) [
        | inl aborted ↦ inr (
          again ∙ rw aborted refl,
          elim (Bool-cases (anyb is_rejected r.results)) [
            | inl some_rejected ↦ some_rejected
            | inr none_rejected ↦
                let (same_db, same_results) =
                  unchanged_run sha256 utc_date dir p now later db r a none_rejected in
                absurd (cc (aborted, processed_is_fine sha256 utc_date dir p p.events))
          ],
        )
        | inr fine ↦ inl (
          response_of a.mappings second,
          ap (λ (s : Synced). s.answer)
              (again ∙ commit_batch-finishes sha256 utc_date dir p b a.mappings second fine),
          ap (λ (x : SyncResponse). x.session_mappings) a.answer,
          subst (λ (x : SyncResponse). Repeats x.results second.results) a.answer
              (events_run-Repeats sha256 dir.directory p.school_id p.actor_id
                (role_or_teacher p.user_role) a.mappings now later p.events
                (reconciling sha256 utc_date dir p now db).db b
                (sync-Later sha256 utc_date dir p now db r a)),
        )
      ]

  -- A batch whose client sessions differ by more than the case of their identifiers, of which no
  -- event was rejected, and that is sent again on the same day of UTC, is answered: it writes
  -- nothing but its entry of the audit log, and every event is answered as processed.
  pub sync_attendance_events-unchanged :
      (now later : ℕ) (db : SyncDb) (r : SyncResponse)
      → HasDistinctIds (session_payloads (utc_date now) p.sessions p.events)
      → utc_date later ≡ utc_date now
      → (sync sha256 utc_date dir p now db).answer ≡ returns r
      → anyb is_rejected r.results ≡ false
      → (run : EventRun) × (run.db ≡ (sync sha256 utc_date dir p now db).db)
        × (run.results ≡ map processed_item p.events)
        × (sync sha256 utc_date dir p later (sync sha256 utc_date dir p now db).db
            ≡ finish_batch p r.session_mappings run)
  sync_attendance_events-unchanged now later db r ids day h n =
      let b = (sync sha256 utc_date dir p now db).db in
      let a = sync-Answers sha256 utc_date dir p now db r h in
      let second = batch_run sha256 utc_date dir p later a.mappings b in
      let (same_db, same_results) = unchanged_run sha256 utc_date dir p now later db r a n in
      (
        second,
        same_db,
        same_results,
        sync-again sha256 utc_date dir p now later db r a ids day
            ∙ commit_batch-finishes sha256 utc_date dir p b a.mappings second (
                ap (λ is. anyb is_aborted is) same_results
                ∙ processed_is_fine sha256 utc_date dir p p.events)
            ∙ ap (λ ms. finish_batch p ms second)
                (ap (λ (x : SyncResponse). x.session_mappings) a.answer),
      )
