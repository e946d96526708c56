-- ===== src/Sync/Answered.antt =====
-- What a batch that was answered has done, and what a second call of it starts from.
use mathlib.Core.Path.{subst}
use offline_qr_school_attend.Common.{
  ℕ, ◌≡◌, refl, sym, ap, ◌∙◌, Bool, false, if◌then◌else◌, List, [], ◌∷◌, map, anyb, inl, inr,
  Bool-cases,
}
use offline_qr_school_attend.Common.Result.{Result, throws, returns, Result-cases}
use offline_qr_school_attend.Sync.Types.{
  SyncEventPayload, ServerMapping, SyncParams, SyncError, SyncResponse, SyncDirectory, SyncDb,
}
use offline_qr_school_attend.Sync.Sessions.{Reconciliation, session_payloads, reconcile_sessions}
use offline_qr_school_attend.Sync.Events.{EventRun, sync_events}
use offline_qr_school_attend.Sync.Batch.{
  is_rejected, is_aborted, commit_batch, Synced, check_batch, response_of, finish_batch,
  role_or_teacher, sync_reconciled, reconcile_batch, sync_checked, sync_attendance_events,
}
use offline_qr_school_attend.Sync.Payloads.{HasDistinctIds}
use offline_qr_school_attend.Sync.Mapped.{reconcile_sessions-again}
use offline_qr_school_attend.Sync.Later.{Later, Later-trans}
use offline_qr_school_attend.Sync.Rerun.{processed_item, events_run-Later, events_run-unchanged}

abbrev as_answer : SyncResponse → Result SyncError SyncResponse
as_answer r = returns r

answer-injective : (r s : SyncResponse) → as_answer r ≡ as_answer s → r ≡ s
answer-injective r s h = cc

module _ (sha256 : List ℕ → ℕ) (utc_date : ℕ → ℕ) (dir : SyncDirectory) (p : SyncParams) where
  abbrev pub sync : ℕ → SyncDb → Synced
  sync now db = sync_attendance_events sha256 utc_date dir p now db

  abbrev pub reconciling : ℕ → SyncDb → Reconciliation
  reconciling now db = reconcile_batch sha256 utc_date dir p now db

  abbrev pub batch_run : ℕ → List ServerMapping → SyncDb → EventRun
  batch_run now mappings db =
      sync_events sha256 dir.directory p.school_id p.actor_id (role_or_teacher p.user_role) now
        mappings p.events db

  sync-done :
      (now : ℕ) (db : SyncDb) (mappings : List ServerMapping)
      → check_batch dir p ≡ returns tt
      → (reconciling now db).mappings ≡ returns mappings
      → sync now db ≡ commit_batch p db mappings (batch_run now mappings (reconciling now db).db)
  unfolding sync_attendance_events
  sync-done now db mappings c h =
      ap (sync_checked sha256 utc_date dir p now db) c
      ∙ ap (sync_reconciled sha256 utc_date dir p now db (reconciling now db).db) h

  pub commit_batch-finishes :
      (before : SyncDb) (mappings : List ServerMapping) (run : EventRun)
      → anyb is_aborted run.results ≡ false
      → commit_batch p before mappings run ≡ finish_batch p mappings run
  commit_batch-finishes before mappings run fine = rw fine refl

  commit_batch-answers :
      (before : SyncDb) (mappings : List ServerMapping) (run : EventRun) (r : SyncResponse)
      → (commit_batch p before mappings run).answer ≡ returns r
      → (anyb is_aborted run.results ≡ false) × (response_of mappings run ≡ r)
  unfolding finish_batch
  commit_batch-answers before mappings run r h = elim (Bool-cases (anyb is_aborted run.results)) [
    | inl aborted ↦ absurd (cc (subst (λ b. (commit b).answer ≡ returns r) aborted h))
    | inr fine ↦ (fine, answer-injective _ r (subst (λ b. (commit b).answer ≡ returns r) fine h))
  ]
    where
      commit : Bool → Synced
      commit b =
          if b
          then record { db = before; answer = throws SyncError.transaction_aborted }
          else finish_batch p mappings run

  -- What a call that answers has done.
  pub record Answers (now : ℕ) (db : SyncDb) (r : SyncResponse) : Type 0 where
    pub checked : check_batch dir p ≡ returns tt
    pub mappings : List ServerMapping
    pub reconciled : (reconciling now db).mappings ≡ returns mappings
    pub fine : anyb is_aborted (batch_run now mappings (reconciling now db).db).results ≡ false
    pub answer : response_of mappings (batch_run now mappings (reconciling now db).db) ≡ r

  reconciled-Answers :
      (now : ℕ) (db : SyncDb) (r : SyncResponse)
      → check_batch dir p ≡ returns tt
      → (sync_reconciled sha256 utc_date dir p now db
          (reconciling now db).db
          (reconciling now db).mappings).answer
        ≡ returns r
      → Answers now db r
  reconciled-Answers now db r c h =
      let again = sync_reconciled sha256 utc_date dir p now db (reconciling now db).db in
      elim (Result-cases (reconciling now db).mappings) [
        | inl (e, thrown) ↦ absurd (cc (subst (λ m. (again m).answer ≡ returns r) thrown h))
        | inr (mappings, returned) ↦
            let (fine, answer) =
              commit_batch-answers db mappings (batch_run now mappings (reconciling now db).db) r
                (subst (λ m. (again m).answer ≡ returns r) returned h) in
            record {
              checked = c;
              mappings = mappings;
              reconciled = returned;
              fine = fine;
              answer = answer;
            }
      ]

  pub sync-Answers :
      (now : ℕ) (db : SyncDb) (r : SyncResponse)
      → (sync now db).answer ≡ returns r
      → Answers now db r
  unfolding sync_attendance_events
  sync-Answers now db r h =
      let checked = sync_checked sha256 utc_date dir p now db in
      elim (Result-cases (check_batch dir p)) [
        | inl (e, thrown) ↦ absurd (cc (subst (λ m. (checked m).answer ≡ returns r) thrown h))
        | inr (tt, returned) ↦
            reconciled-Answers now db r returned
              (subst (λ m. (checked m).answer ≡ returns r) returned h)
      ]

  -- The database that a call leaves reads as the run of its events has left it.
  pub sync-Later :
      (now : ℕ) (db : SyncDb) (r : SyncResponse) (a : Answers now db r)
      → Later (batch_run now a.mappings (reconciling now db).db).db (sync now db).db
  unfolding finish_batch
  sync-Later now db r a =
      subst (λ (s : Synced). Later (batch_run now a.mappings (reconciling now db).db).db s.db)
        (sym (
          sync-done now db a.mappings a.checked a.reconciled
          ∙ commit_batch-finishes db a.mappings (batch_run now a.mappings (reconciling now db).db)
              a.fine))
        (record {
          sessions = record { same_clients = refl; same_sessions = refl };
          keeps = λ q e h. h;
        })

  sync-reconciling :
      (now later : ℕ) (db : SyncDb) (r : SyncResponse) (a : Answers now db r)
      → HasDistinctIds (session_payloads (utc_date now) p.sessions p.events)
      → utc_date later ≡ utc_date now
      → reconciling later (sync now db).db
        ≡ record { db = (sync now db).db; mappings = returns a.mappings }
  sync-reconciling now later db r a ids day =
      let b = (sync now db).db in
      let role = role_or_teacher p.user_role in
      let run = batch_run now a.mappings (reconciling now db).db in
      let grown =
        Later-trans (reconciling now db).db run.db b
          (events_run-Later sha256 dir.directory p.school_id p.actor_id role a.mappings now p.events
            (reconciling now db).db)
          (sync-Later now db r a) in
      ap
        (λ today.
          reconcile_sessions dir.directory p.school_id p.actor_id role later
            (session_payloads today p.sessions p.events) b)
        day
      ∙ reconcile_sessions-again dir.directory p.school_id p.actor_id role now later
          (session_payloads (utc_date now) p.sessions p.events) db a.mappings ids a.reconciled b
          grown.sessions

  -- The second call runs the events on what the first has left, with the same sessions.
  pub sync-again :
      (now later : ℕ) (db : SyncDb) (r : SyncResponse) (a : Answers now db r)
      → HasDistinctIds (session_payloads (utc_date now) p.sessions p.events)
      → utc_date later ≡ utc_date now
      → sync later (sync now db).db
        ≡ commit_batch p (sync now db).db a.mappings (batch_run later a.mappings (sync now db).db)
  sync-again now later db r a ids day =
      let b = (sync now db).db in
      let e = sync-reconciling now later db r a ids day in
      sync-done later b a.mappings a.checked (ap (λ (x : Reconciliation). x.mappings) e)
      ∙ ap (λ (x : Reconciliation). commit_batch p b a.mappings (batch_run later a.mappings x.db)) e

  pub processed_is_fine :
      (es : List SyncEventPayload) → anyb is_aborted (map processed_item es) ≡ false
  processed_is_fine [] = refl
  processed_is_fine (e ∷ es) = processed_is_fine es

  -- Where the first call rejected nothing, the second run writes nothing.
  pub unchanged_run :
      (now later : ℕ) (db : SyncDb) (r : SyncResponse) (a : Answers now db r)
      → anyb is_rejected r.results ≡ false
      → ((batch_run later a.mappings (sync now db).db).db ≡ (sync now db).db)
        × ((batch_run later a.mappings (sync now db).db).results ≡ map processed_item p.events)
  unchanged_run now later db r a n =
      let n1 : anyb is_rejected (batch_run now a.mappings (reconciling now db).db).results ≡ false =
        ap (λ (x : SyncResponse). anyb is_rejected x.results) a.answer ∙ n in
      events_run-unchanged sha256 dir.directory p.school_id p.actor_id (role_or_teacher p.user_role)
        a.mappings now later p.events (reconciling now db).db (sync now db).db n1
        (sync-Later now db r a)
