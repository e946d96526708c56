-- ===== src/Sync/Rerun.antt =====
-- The events of a batch, run a second time on what the first run has left.
use mathlib.Core.Path.{subst}
use offline_qr_school_attend.Common.{
  ℕ, ◌≡◌, refl, sym, ap, ◌∙◌, Bool, true, false, List, [], ◌∷◌, map, anyb, ◌||◌,
}
use offline_qr_school_attend.Directory.{Directory, UserRole}
use offline_qr_school_attend.Sync.Types.{
  SyncEventPayload, ItemStatus, SyncBatchResultItem, ServerMapping, SyncDb,
}
use offline_qr_school_attend.Sync.Events.{item, EventStep, EventRun, add_result, sync_events}
use offline_qr_school_attend.Sync.Batch.{is_rejected}
use offline_qr_school_attend.Sync.Later.{Later, Later-refl, Later-trans}
use offline_qr_school_attend.Sync.Replay.{
  step, step-Later, Logged, Logged-Later, UnlessRejected, step-Logged, Logged-again,
}

abbrev pub processed_item : SyncEventPayload → SyncBatchResultItem
processed_item e = item e ItemStatus.already_processed

or-false : (a b : Bool) → (a || b) ≡ false → (a ≡ false) × (b ≡ false)
or-false true b h = absurd (cc)
or-false false b h = (refl, h)

-- The second answer is to the same event: that it was processed, unless the first one rejected it.
abbrev pub IsRepeat : SyncBatchResultItem → SyncBatchResultItem → Type 0
IsRepeat i j =
    (j.client_event_id ≡ i.client_event_id)
    × UnlessRejected i.status (j.status ≡ ItemStatus.already_processed)

-- The answers of two calls, position by position.
pub data Repeats : List SyncBatchResultItem → List SyncBatchResultItem → Type 0 where
  nothing : Repeats [] []
  more :
      {i j : SyncBatchResultItem} {is js : List SyncBatchResultItem}
      → IsRepeat i j
      → Repeats is js
      → Repeats (i ∷ is) (j ∷ js)

module _ (sha256 : List ℕ → ℕ) (dir : Directory) (school actor : ℕ) (role : UserRole)
    (mappings : List ServerMapping) where
  abbrev pub events_run : ℕ → List SyncEventPayload → SyncDb → EventRun
  events_run now es db = sync_events sha256 dir school actor role now mappings es db

  events_run-first :
      (now : ℕ) (e : SyncEventPayload) (es : List SyncEventPayload) (db : SyncDb)
      → events_run now (e ∷ es) db
        ≡ add_result sha256 dir school actor role now mappings e
            (step sha256 dir school actor role mappings now e db).status
            (events_run now es (step sha256 dir school actor role mappings now e db).db)
  unfolding sync_events
  events_run-first now e es db = refl

  events_run-nil :
      (now : ℕ) (db : SyncDb)
      → events_run now [] db ≡ record { db = db; results = []; clock_skew_corrected_count = 0 }
  unfolding sync_events
  events_run-nil now db = refl

  pub events_run-Later :
      (now : ℕ) (es : List SyncEventPayload) (db : SyncDb) → Later db (events_run now es db).db
  unfolding sync_events
  events_run-Later now [] db = Later-refl db
  events_run-Later now (e ∷ es) db =
      let s = step sha256 dir school actor role mappings now e db in
      Later-trans db s.db (events_run now es s.db).db
        (step-Later sha256 dir school actor role mappings now e db) (events_run-Later now es s.db)

  repeat_status :
      (later : ℕ) (e : SyncEventPayload) (first : ItemStatus) (a b : SyncDb)
      → Later a b
      → UnlessRejected first (Logged sha256 dir school actor role mappings e a)
      → UnlessRejected first (
          (step sha256 dir school actor role mappings later e b).status
          ≡ ItemStatus.already_processed)
  repeat_status later e (ItemStatus.rejected f) a b h l = tt
  repeat_status later e (ItemStatus.accepted d) a b h l =
      ap (λ (s : EventStep). s.status)
        (Logged-again sha256 dir school actor role mappings later e b
          (Logged-Later sha256 dir school actor role mappings e a b h l))
  repeat_status later e ItemStatus.already_processed a b h l =
      ap (λ (s : EventStep). s.status)
        (Logged-again sha256 dir school actor role mappings later e b
          (Logged-Later sha256 dir school actor role mappings e a b h l))

  pub events_run-Repeats :
      (now later : ℕ) (es : List SyncEventPayload) (db b : SyncDb)
      → Later (events_run now es db).db b
      → Repeats (events_run now es db).results (events_run later es b).results
  unfolding sync_events
  events_run-Repeats now later [] db b h = nothing
  events_run-Repeats now later (e ∷ es) db b h =
      let s = step sha256 dir school actor role mappings now e db in
      let t = step sha256 dir school actor role mappings later e b in
      let end = (events_run now es s.db).db in
      let reached : Later s.db b = Later-trans s.db end b (events_run-Later now es s.db) h in
      more
        (
          refl,
          repeat_status later e s.status s.db b reached
              (step-Logged sha256 dir school actor role mappings now e db),
        )
        (events_run-Repeats now later es s.db t.db
          (Later-trans end b t.db h (step-Later sha256 dir school actor role mappings later e b)))

  unless_not_rejected :
      (e : SyncEventPayload) (s : ItemStatus) (P : Type 0)
      → is_rejected (item e s) ≡ false
      → UnlessRejected s P
      → P
  unless_not_rejected e (ItemStatus.rejected f) P h u = absurd (cc)
  unless_not_rejected e (ItemStatus.accepted d) P h u = u
  unless_not_rejected e ItemStatus.already_processed P h u = u

  -- Where nothing was rejected, the second run writes nothing.
  pub events_run-unchanged :
      (now later : ℕ) (es : List SyncEventPayload) (db b : SyncDb)
      → anyb is_rejected (events_run now es db).results ≡ false
      → Later (events_run now es db).db b
      → ((events_run later es b).db ≡ b) × ((events_run later es b).results ≡ map processed_item es)
  events_run-unchanged now later [] db b n h = (
    ap (λ (r : EventRun). r.db) (events_run-nil later b),
    ap (λ (r : EventRun). r.results) (events_run-nil later b),
  )
  events_run-unchanged now later (e ∷ es) db b n h =
      let s = step sha256 dir school actor role mappings now e db in
      let rest = events_run now es s.db in
      let first = events_run-first now e es db in
      let n1 : (is_rejected (item e s.status) || anyb is_rejected rest.results) ≡ false =
        ap (λ (r : EventRun). anyb is_rejected r.results) (sym first) ∙ n in
      let (here, there) = or-false (is_rejected (item e s.status)) _ n1 in
      let h1 : Later rest.db b = subst (λ (r : EventRun). Later r.db b) first h in
      let reached : Later s.db b = Later-trans s.db rest.db b (events_run-Later now es s.db) h1 in
      let logged =
        unless_not_rejected e s.status (Logged sha256 dir school actor role mappings e s.db) here
          (step-Logged sha256 dir school actor role mappings now e db) in
      let again : step sha256 dir school actor role mappings later e b
          ≡ record { db = b; status = ItemStatus.already_processed } =
        Logged-again sha256 dir school actor role mappings later e b
          (Logged-Later sha256 dir school actor role mappings e s.db b reached logged) in
      let (same_db, same_results) = events_run-unchanged now later es s.db b there h1 in
      let run_again : events_run later (e ∷ es) b
          ≡ add_result sha256 dir school actor role later mappings e ItemStatus.already_processed
              (events_run later es b) =
        events_run-first later e es b
        ∙ ap
            (λ (t : EventStep).
              add_result sha256 dir school actor role later mappings e t.status
                (events_run later es t.db))
            again in
      (
        ap (λ (r : EventRun). r.db) run_again ∙ same_db,
        ap (λ (r : EventRun). r.results) run_again ∙ ap (λ is. processed_item e ∷ is) same_results,
      )
