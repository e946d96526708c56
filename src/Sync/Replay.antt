-- ===== src/Sync/Replay.antt =====
-- An event that a batch has let through is answered as processed when it is sent again.
use mathlib.Core.Path.{subst}
use offline_qr_school_attend.Common.{
  ℕ, ◌≡◌, refl, sym, ap, ◌∙◌, Bool, true, Option, none, some, List, [], ◌∷◌, find?,
  find?-append_some, inl, inr, Option-cases,
}
use offline_qr_school_attend.Common.Result.{
  Result, returns, Result-cases, or_throw_of_some, require_of_true,
}
use offline_qr_school_attend.Directory.{Directory, UserRole}
use offline_qr_school_attend.Ingest.Types.{is_finalized}
use offline_qr_school_attend.Attendance.Access.{may_act}
use offline_qr_school_attend.Attendance.Scan.{
  Scanned, process_qr_code, scan_once, is_same_event, record_of_student,
}
use offline_qr_school_attend.Attendance.ScanLog.{returns-injective}
use offline_qr_school_attend.Attendance.ScanOnce.{
  process_qr_code-Entered, logged_event, scan_new-Logs,
}
use offline_qr_school_attend.Attendance.Types.{Failure, ScanParams, ScanResponse}
use offline_qr_school_attend.Notifications.Absence.{is_session}
use offline_qr_school_attend.Store.{Session, AttendanceEvent, Database}
use offline_qr_school_attend.Sync.Types.{SyncEventPayload, ItemStatus, ServerMapping, SyncDb}
use offline_qr_school_attend.Sync.Events.{
  resolve_session, scan_of_event, EventStep, apply_scan, sync_resolved, sync_event,
}
use offline_qr_school_attend.Sync.Later.{Later, Later-refl, preserve_conflict-Later}

-- What a rejection leaves open, and what holds of every other answer.
abbrev pub UnlessRejected : ItemStatus → Type 0 → Type 0
UnlessRejected (ItemStatus.rejected f) P = Unit
UnlessRejected (ItemStatus.accepted duplicate) P = P
UnlessRejected ItemStatus.already_processed P = P

pub UnlessRejected-intro : (s : ItemStatus) (P : Type 0) → P → UnlessRejected s P
UnlessRejected-intro (ItemStatus.rejected f) P h = tt
UnlessRejected-intro (ItemStatus.accepted duplicate) P h = h
UnlessRejected-intro ItemStatus.already_processed P h = h

-- What a scan that returns leaves of the sessions and the events.
pub record Kept (a b : Database) : Type 0 where
  pub same_sessions : b.sessions ≡ a.sessions
  pub keeps :
      (q : AttendanceEvent → Bool) (e : AttendanceEvent)
      → find? q a.events ≡ some e
      → find? q b.events ≡ some e

module _ (sha256 : List ℕ → ℕ) (dir : Directory) (p : ScanParams) (now : ℕ) where
  scan_once-Kept :
      (locked : Bool) (o : Option AttendanceEvent) (db : Database) (s : Scanned)
      → scan_once sha256 dir p now locked o db ≡ returns s
      → Kept db s.db
  scan_once-Kept locked (some e) db s h =
      subst (λ (x : Scanned). Kept db x.db) (returns-injective _ _ h)
        (record { same_sessions = refl; keeps = λ q e f. f })
  scan_once-Kept locked none db s h =
      let (student, target, l) = scan_new-Logs sha256 dir p now locked db s h in
      record {
        same_sessions = l.sessions;
        keeps = λ q e f. ap (find? q) l.events ∙ find?-append_some q db.events (l.event ∷ []) e f;
      }

  process_qr_code-Kept :
      (db : Database) (s : Scanned) → process_qr_code sha256 dir p now db ≡ returns s → Kept db s.db
  process_qr_code-Kept db s h =
      let c = process_qr_code-Entered sha256 dir p now db s h in
      scan_once-Kept (is_finalized c.session.status) (find? (is_same_event p) db.events) db s c.once

module _ (sha256 : List ℕ → ℕ) (dir : Directory) (school actor : ℕ) (role : UserRole)
    (mappings : List ServerMapping) where
  abbrev pub scan : ℕ → ℕ → SyncEventPayload → ScanParams
  scan now session e = scan_of_event school actor role now session e

  abbrev pub scanned : ℕ → ℕ → SyncEventPayload → SyncDb → Result Failure Scanned
  scanned now session e db = process_qr_code sha256 dir (scan now session e) now db.attendance

  apply_scan-Later :
      (now session : ℕ) (e : SyncEventPayload) (db : SyncDb)
      → Later db (apply_scan school session e db (scanned now session e db)).db
  unfolding apply_scan
  apply_scan-Later now session e db = elim (Result-cases (scanned now session e db)) [
    | inl (f, thrown) ↦ rw thrown (preserve_conflict-Later school session e f db)
    | inr (s, returned) ↦
        let k = process_qr_code-Kept sha256 dir (scan now session e) now db.attendance s returned in
        rw returned (record {
          sessions = record { same_clients = refl; same_sessions = k.same_sessions };
          keeps = k.keeps;
        })
  ]

  abbrev pub step : ℕ → SyncEventPayload → SyncDb → EventStep
  step now e db = sync_event sha256 dir school actor role now mappings e db

  pub step-Later : (now : ℕ) (e : SyncEventPayload) (db : SyncDb) → Later db (step now e db).db
  unfolding sync_event
  step-Later now e db = elim (Option-cases (resolve_session mappings e)) [
    | inl unknown ↦ rw unknown (Later-refl db)
    | inr (session, known) ↦ rw known (apply_scan-Later now session e db)
  ]

  -- The event of a call is in the log, and the call still reaches it.
  pub record Logged (e : SyncEventPayload) (db : SyncDb) : Type 0 where
    pub session_id : ℕ
    pub resolved : resolve_session mappings e ≡ some session_id
    pub session : Session
    pub found : find? (is_session school session_id) db.attendance.sessions ≡ some session
    pub access : may_act dir school session.class_section_id actor role ≡ true
    pub event : AttendanceEvent
    pub logged : find? (is_same_event (scan 0 session_id e)) db.attendance.events ≡ some event

  pub Logged-Later : (e : SyncEventPayload) (a b : SyncDb) → Later a b → Logged e a → Logged e b
  Logged-Later e a b h l = record {
    session_id = l.session_id;
    resolved = l.resolved;
    session = l.session;
    found = ap (find? (is_session school l.session_id)) h.sessions.same_sessions ∙ l.found;
    access = l.access;
    event = l.event;
    logged = h.keeps (is_same_event (scan 0 l.session_id e)) l.event l.logged;
  }

  scanned-Logged :
      (now session : ℕ) (e : SyncEventPayload) (db : SyncDb) (s : Scanned)
      → resolve_session mappings e ≡ some session
      → scanned now session e db ≡ returns s
      → Logged e (record db { attendance = s.db })
  scanned-Logged now session e db s known h =
      let p = scan now session e in
      let c = process_qr_code-Entered sha256 dir p now db.attendance s h in
      let (event, sessions, found) =
        logged_event sha256 dir p now (is_finalized c.session.status)
          (find? (is_same_event p) db.attendance.events) db.attendance s refl c.once in
      let role_same : c.role ≡ role = cc (c.has_role) in
      let actor_same : c.actor ≡ actor = cc (c.has_actor) in
      record {
        session_id = session;
        resolved = known;
        session = c.session;
        found = ap (find? (is_session school session)) sessions ∙ c.found;
        access =
            ap (λ a. may_act dir school c.session.class_section_id a role) (sym actor_same)
            ∙ ap (may_act dir school c.session.class_section_id c.actor) (sym role_same)
            ∙ c.access;
        event = event;
        logged = found;
      }

  apply_scan-Logged :
      (now session : ℕ) (e : SyncEventPayload) (db : SyncDb)
      → resolve_session mappings e ≡ some session
      → UnlessRejected
          (apply_scan school session e db (scanned now session e db)).status
          (Logged e (apply_scan school session e db (scanned now session e db)).db)
  unfolding apply_scan
  apply_scan-Logged now session e db known = elim (Result-cases (scanned now session e db)) [
    | inl (f, thrown) ↦ rw thrown tt
    | inr (s, returned) ↦ rw returned (
        UnlessRejected-intro _ (Logged e (record db { attendance = s.db }))
          (scanned-Logged now session e db s known returned))
  ]

  pub step-Logged :
      (now : ℕ) (e : SyncEventPayload) (db : SyncDb)
      → UnlessRejected (step now e db).status (Logged e (step now e db).db)
  unfolding sync_event
  step-Logged now e db = elim (Option-cases (resolve_session mappings e)) [
    | inl unknown ↦ rw unknown tt
    | inr (session, known) ↦
        subst
          (λ o.
            UnlessRejected (sync_resolved sha256 dir school actor role now mappings e db o).status
              (Logged e (sync_resolved sha256 dir school actor role now mappings e db o).db))
          (sym known) (apply_scan-Logged now session e db known)
  ]

  Logged-scanned :
      (now : ℕ) (e : SyncEventPayload) (db : SyncDb) (l : Logged e db)
      → scanned now l.session_id e db
        ≡ returns (record {
          db = db.attendance;
          response =
              ScanResponse.idempotent_duplicate l.event
                (record_of_student (scan now l.session_id e) l.event.student_id db.attendance);
        })
  unfolding process_qr_code
  Logged-scanned now e db l =
      let p = scan now l.session_id e in
      or_throw_of_some (find? (is_session school l.session_id) db.attendance.sessions) _ _ l.session
        l.found
      ∙ require_of_true (may_act dir school l.session.class_section_id actor role) _ _ l.access
      ∙ ap (λ o. scan_once sha256 dir p now (is_finalized l.session.status) o db.attendance)
          l.logged

  pub Logged-again :
      (now : ℕ) (e : SyncEventPayload) (db : SyncDb)
      → Logged e db
      → step now e db ≡ record { db = db; status = ItemStatus.already_processed }
  unfolding sync_event apply_scan
  Logged-again now e db l =
      ap (sync_resolved sha256 dir school actor role now mappings e db) l.resolved
      ∙ ap (apply_scan school l.session_id e db) (Logged-scanned now e db l)
