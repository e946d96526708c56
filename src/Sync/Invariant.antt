-- ===== src/Sync/Invariant.antt =====
-- A synchronisation keeps the attendance tables well-formed.
use mathlib.Core.Path.{subst}
use offline_qr_school_attend.Common.{
  ℕ, ◌≡◌, refl, sym, false, not, Option, none, some, List, [], ◌∷◌, map, anyb, find?, arith, inl,
  inr, Bool-cases, Option-cases,
}
use offline_qr_school_attend.Common.Result.{Result, throws, returns, require-returns, Result-cases}
use offline_qr_school_attend.Directory.{Directory, Enrollment, UserRole}
use offline_qr_school_attend.Attendance.Invariant.{process_qr_code-WellFormed}
use offline_qr_school_attend.Attendance.Kept.{carry-WellFormed}
use offline_qr_school_attend.Attendance.Reachable.{insert_new_session-WellFormed}
use offline_qr_school_attend.Attendance.Sessions.{
  has_repeats, enrolled_student, active_enrollments, insert_new_session,
}
use offline_qr_school_attend.Attendance.Tables.{is_school_record}
use offline_qr_school_attend.Attendance.Types.{Failure, SessionParams}
use offline_qr_school_attend.Attendance.Unique.{WellFormed}
use offline_qr_school_attend.Store.{Session, AttendanceRecord, Database}
use offline_qr_school_attend.Sync.Types.{
  SyncEventPayload, SyncSessionPayload, SyncError, ServerMapping, SyncParams, SyncDirectory,
  ClientSession, SyncDb,
}
use offline_qr_school_attend.Sync.Sessions.{
  params_of_payload, insert_synced_session, is_uuid, session_payloads, Reconciled, create_session,
  by_natural_key, locate, reconcile_session, reconcile_sessions,
}
use offline_qr_school_attend.Sync.Events.{
  EventRun, resolve_session, scan_of_event, set_conflict, is_locked, conflict_of_student,
  preserve_conflict, apply_scan, sync_event, sync_events,
}
use offline_qr_school_attend.Sync.Batch.{
  check_batch, finish_batch, is_aborted, commit_batch, role_or_teacher, sync_reconciled,
  reconcile_batch, sync_checked, sync_attendance_events,
}
use offline_qr_school_attend.Sync.Known.{has_access, client_row, key_row}
use offline_qr_school_attend.Sync.Reconciles.{reconciled-injective}
use offline_qr_school_attend.Sync.Replay.{scanned}

insert_synced_session-WellFormed :
    (p : SessionParams) (now : ℕ) (es : List Enrollment) (db : Database)
    → has_repeats (map enrolled_student es) ≡ false
    → WellFormed db
    → WellFormed (insert_synced_session p now es db)
unfolding insert_synced_session insert_new_session
insert_synced_session-WellFormed p now es db h w =
    carry-WellFormed (insert_new_session p now es db) (insert_synced_session p now es db) refl refl
      (omega arith) (insert_new_session-WellFormed p now es db h w)

abbrev IsFine : SyncDb → Type 0
IsFine db = WellFormed db.attendance

set_conflict-same :
    (o : Option AttendanceRecord) (db : SyncDb) → (set_conflict o db).attendance ≡ db.attendance
set_conflict-same none db = refl
set_conflict-same (some r) db = refl

preserve_conflict-same :
    (school session : ℕ) (e : SyncEventPayload) (f : Failure) (db : SyncDb)
    → (preserve_conflict school session e f db).attendance ≡ db.attendance
unfolding preserve_conflict
preserve_conflict-same school session e f db = elim (Bool-cases (is_locked f)) [
  | inl locked ↦ rw locked (of_student e.student_id)
  | inr other ↦ rw other refl
]
  where
    of_student :
        (o : Option ℕ) → (conflict_of_student school session o db).attendance ≡ db.attendance
    of_student none = refl
    of_student (some student) =
        set_conflict-same (find? (is_school_record school session student) db.attendance.records) db

module _ (dir : Directory) (school actor : ℕ) (role : UserRole) (now : ℕ) where
  create_session-IsFine :
      (p : SyncSessionPayload) (db : SyncDb) (r : Reconciled)
      → create_session dir school actor role now p db ≡ returns r
      → IsFine db
      → IsFine r.db
  create_session-IsFine p db r h w =
      let es = active_enrollments dir school p.class_section_id in
      let (distinct, h1) = require-returns (not (has_repeats (map enrolled_student es))) _ _ _ h in
      subst (λ (x : Reconciled). IsFine x.db) (reconciled-injective _ r h1)
        (insert_synced_session-WellFormed (params_of_payload school actor role p) now es
          db.attendance (ground (arith, distinct)) w)

  by_natural_key-IsFine :
      (p : SyncSessionPayload) (o : Option Session) (db : SyncDb) (r : Reconciled)
      → by_natural_key dir school actor role now p db o ≡ returns r
      → IsFine db
      → IsFine r.db
  by_natural_key-IsFine p none db r h w = create_session-IsFine p db r h w
  by_natural_key-IsFine p (some s) db r h w =
      subst (λ (x : Reconciled). IsFine x.db) (reconciled-injective _ r h) w

  locate-IsFine :
      (p : SyncSessionPayload) (o : Option ClientSession) (db : SyncDb) (r : Reconciled)
      → locate dir school actor role now p db o ≡ returns r
      → IsFine db
      → IsFine r.db
  locate-IsFine p none db r h w =
      by_natural_key-IsFine p (key_row dir school actor role p db) db r h w
  locate-IsFine p (some c) db r h w =
      subst (λ (x : Reconciled). IsFine x.db) (reconciled-injective _ r h) w

  reconcile_session-IsFine :
      (p : SyncSessionPayload) (db : SyncDb) (r : Reconciled)
      → reconcile_session dir school actor role now p db ≡ returns r
      → IsFine db
      → IsFine r.db
  unfolding reconcile_session
  reconcile_session-IsFine p db r h w =
      let (named, h1) = require-returns (is_uuid p.client_session_id) _ _ _ h in
      let (access, h2) = require-returns (has_access dir school actor role p) _ _ _ h1 in
      locate-IsFine p (client_row dir school actor role p db) db r h2 w

  reconcile_sessions-IsFine :
      (ps : List SyncSessionPayload) (db : SyncDb)
      → IsFine db
      → IsFine (reconcile_sessions dir school actor role now ps db).db
  unfolding reconcile_sessions
  reconcile_sessions-IsFine [] db w = w
  reconcile_sessions-IsFine (p ∷ ps) db w =
      elim (Result-cases (reconcile_session dir school actor role now p db)) [
        | inl (e, thrown) ↦ rw thrown w
        | inr (r, returned) ↦
            rw returned
              (reconcile_sessions-IsFine ps r.db (reconcile_session-IsFine p db r returned w))
      ]

module _ (sha256 : List ℕ → ℕ) (dir : Directory) (school actor : ℕ) (role : UserRole)
    (mappings : List ServerMapping) (now : ℕ) where
  apply_scan-IsFine :
      (session : ℕ) (e : SyncEventPayload) (db : SyncDb)
      → IsFine db
      → IsFine
          (apply_scan school session e db
            (scanned sha256 dir school actor role mappings now session e db)).db
  unfolding apply_scan
  apply_scan-IsFine session e db w =
      let m = scanned sha256 dir school actor role mappings now session e db in
      elim (Result-cases m) [
        | inl (f, thrown) ↦
            rw thrown (subst WellFormed (sym (preserve_conflict-same school session e f db)) w)
        | inr (s, returned) ↦ rw returned (
            process_qr_code-WellFormed sha256 dir (scan_of_event school actor role now session e)
              now db.attendance s returned w)
      ]

  sync_event-IsFine :
      (e : SyncEventPayload) (db : SyncDb)
      → IsFine db
      → IsFine (sync_event sha256 dir school actor role now mappings e db).db
  unfolding sync_event
  sync_event-IsFine e db w = elim (Option-cases (resolve_session mappings e)) [
    | inl unknown ↦ rw unknown w
    | inr (session, known) ↦ rw known (apply_scan-IsFine session e db w)
  ]

  sync_events-IsFine :
      (es : List SyncEventPayload) (db : SyncDb)
      → IsFine db
      → IsFine (sync_events sha256 dir school actor role now mappings es db).db
  unfolding sync_events
  sync_events-IsFine [] db w = w
  sync_events-IsFine (e ∷ es) db w =
      sync_events-IsFine es (sync_event sha256 dir school actor role now mappings e db).db
        (sync_event-IsFine e db w)

module _ (sha256 : List ℕ → ℕ) (utc_date : ℕ → ℕ) (dir : SyncDirectory) (p : SyncParams)
    (now : ℕ) where
  commit_batch-IsFine :
      (mappings : List ServerMapping) (before : SyncDb) (run : EventRun)
      → IsFine before
      → IsFine run.db
      → IsFine (commit_batch p before mappings run).db
  unfolding finish_batch
  commit_batch-IsFine mappings before run v w = elim (Bool-cases (anyb is_aborted run.results)) [
    | inl aborted ↦ rw aborted v
    | inr fine ↦ rw fine w
  ]

  sync_reconciled-IsFine :
      (m : Result SyncError (List ServerMapping)) (before db : SyncDb)
      → IsFine before
      → IsFine db
      → IsFine (sync_reconciled sha256 utc_date dir p now before db m).db
  sync_reconciled-IsFine (throws e) before db v w = w
  sync_reconciled-IsFine (returns mappings) before db v w =
      commit_batch-IsFine mappings before
        (sync_events sha256 dir.directory p.school_id p.actor_id (role_or_teacher p.user_role) now
          mappings p.events db)
        v
        (sync_events-IsFine sha256 dir.directory p.school_id p.actor_id
          (role_or_teacher p.user_role) mappings now p.events db w)

  sync_checked-IsFine :
      (m : Result SyncError (Unit {0})) (db : SyncDb)
      → IsFine db
      → IsFine (sync_checked sha256 utc_date dir p now db m).db
  sync_checked-IsFine (throws e) db w = w
  sync_checked-IsFine (returns _) db w =
      let r = reconcile_batch sha256 utc_date dir p now db in
      sync_reconciled-IsFine r.mappings db r.db w (
        reconcile_sessions-IsFine dir.directory p.school_id p.actor_id (role_or_teacher p.user_role)
          now (session_payloads (utc_date now) p.sessions p.events) db w)

  -- Whatever a batch holds, and whether it is answered or throws, the attendance tables that it
  -- leaves are well-formed where they were before.
  pub sync_attendance_events-WellFormed :
      (db : SyncDb)
      → WellFormed db.attendance
      → WellFormed (sync_attendance_events sha256 utc_date dir p now db).db.attendance
  unfolding sync_attendance_events
  sync_attendance_events-WellFormed db w = sync_checked-IsFine (check_batch dir p) db w
