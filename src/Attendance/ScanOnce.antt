-- ===== src/Attendance/ScanOnce.antt =====
-- `processQRCode` runs once per client event, and never on a final session.
use mathlib.Core.Path.{subst}
use offline_qr_school_attend.Common.{
  ℕ, ◌≡◌, refl, sym, ap, ◌∙◌, Bool, true, not, Option, none, some, List, [], ◌∷◌, ◌++◌, ◌⊎◌, inl,
  inr, arith, find?, find?-holds, find?-append_new,
}
use offline_qr_school_attend.Common.Result.{
  returns, bind-returns, require-returns, or_throw-returns, require_of_true, or_throw_of_some,
}
use offline_qr_school_attend.Directory.{Directory, UserRole}
use offline_qr_school_attend.Ingest.Types.{SessionStatus, is_finalized}
use offline_qr_school_attend.Notifications.Absence.{is_session}
use offline_qr_school_attend.Attendance.Access.{may_act}
use offline_qr_school_attend.Attendance.Scan.{
  is_same_event, Scanned, process_qr_code, scan_once, scan_new, record_of_student, scan_target,
}
use offline_qr_school_attend.Attendance.ScanLog.{Logs, write_mark-Logs, returns-injective}
use offline_qr_school_attend.Attendance.Types.{ScanParams, ScanResponse}
use offline_qr_school_attend.Store.{AttendanceEvent, Database, Session}

-- A scan that is let through has found its session, and the actor may act on it.
pub record Entered (sha256 : List ℕ → ℕ) (dir : Directory) (p : ScanParams) (now : ℕ)
    (db : Database) (s : Scanned) : Type 0 where
  pub session : Session
  pub role : UserRole
  pub actor : ℕ
  pub has_role : p.user_role ≡ some role
  pub has_actor : p.actor_id ≡ some actor
  pub found : find? (is_session p.school_id p.session_id) db.sessions ≡ some session
  pub access : may_act dir p.school_id session.class_section_id actor role ≡ true
  pub once :
      scan_once sha256 dir p now
        (is_finalized session.status)
        (find? (is_same_event p) db.events)
        db
      ≡ returns s

module _ (sha256 : List ℕ → ℕ) (dir : Directory) (p : ScanParams) where
  pub process_qr_code-Entered :
      (now : ℕ) (db : Database) (s : Scanned)
      → process_qr_code sha256 dir p now db ≡ returns s
      → Entered sha256 dir p now db s
  unfolding process_qr_code
  process_qr_code-Entered now db s h =
      let (role, r, h1) = or_throw-returns p.user_role _ _ _ h in
      let (actor, a, h2) = or_throw-returns p.actor_id _ _ _ h1 in
      let (session, found, h3) =
        or_throw-returns (find? (is_session p.school_id p.session_id) db.sessions) _ _ _ h2 in
      let (access, h4) =
        require-returns (may_act dir p.school_id session.class_section_id actor role) _ _ _ h3 in
      record {
        session = session;
        role = role;
        actor = actor;
        has_role = r;
        has_actor = a;
        found = found;
        access = access;
        once = h4;
      }

  pub scan_new-Logs :
      (now : ℕ) (locked : Bool) (db : Database) (s : Scanned)
      → scan_new sha256 dir p now locked db ≡ returns s
      → (student : ℕ) × (scan_target sha256 dir p db ≡ returns student) × Logs p student db s.db
  scan_new-Logs now locked db s h =
      let (open_session, h1) = require-returns (not locked) _ _ _ h in
      let (student, target, h2) = bind-returns (scan_target sha256 dir p db) _ _ h1 in
      (student, target, write_mark-Logs p now student (record_of_student p student db) db s h2)

  -- The event of the call stands in the log afterwards.
  pub logged_event :
      (now : ℕ) (locked : Bool) (o : Option AttendanceEvent) (db : Database) (s : Scanned)
      → find? (is_same_event p) db.events ≡ o
      → scan_once sha256 dir p now locked o db ≡ returns s
      → (e : AttendanceEvent) × (s.db.sessions ≡ db.sessions)
        × (find? (is_same_event p) s.db.events ≡ some e)
  logged_event now locked (some e) db s f h =
      let same = returns-injective _ _ h in
      (
        e,
        ap (λ (x : Scanned). x.db.sessions) (sym same),
        ap (λ (x : Scanned). find? (is_same_event p) x.db.events) (sym same) ∙ f,
      )
  logged_event now locked none db s f h =
      let (student, target, l) = scan_new-Logs now locked db s h in
      (
        l.event,
        l.sessions,
        ap (find? (is_same_event p)) l.events
            ∙ find?-append_new (is_same_event p) db.events l.event f l.of_call,
      )

  -- The event of the call: of its school, its session and its identifier.
  pub record IsOfCall (e : AttendanceEvent) : Type 0 where
    pub of_school : e.school_id ≡ p.school_id
    pub of_session : e.attendance_session_id ≡ p.session_id
    pub of_client : e.client_event_id ≡ p.client_event_id

  of_same_event : (e : AttendanceEvent) → is_same_event p e ≡ true → IsOfCall e
  of_same_event e h = record {
    of_school = ground (arith, h);
    of_session = ground (arith, h);
    of_client = ground (arith, h);
  }

  -- The call has logged the event now, or found it in the log and written nothing.
  abbrev pub LoggedBy : Database → Database → AttendanceEvent → Type 0
  LoggedBy db db' e =
      (db'.events ≡ db.events ++ e ∷ [])
      ⊎ ((db' ≡ db) × (find? (is_same_event p) db.events ≡ some e))

  logged_event-LoggedBy :
      (now : ℕ) (locked : Bool) (o : Option AttendanceEvent) (db : Database) (s : Scanned)
      (e : AttendanceEvent)
      → find? (is_same_event p) db.events ≡ o
      → scan_once sha256 dir p now locked o db ≡ returns s
      → find? (is_same_event p) s.db.events ≡ some e
      → LoggedBy db s.db e
  logged_event-LoggedBy now locked (some e0) db s e f h found =
      let same = ap (λ (x : Scanned). x.db) (sym (returns-injective _ _ h)) in
      inr (same, ap (λ (x : Database). find? (is_same_event p) x.events) (sym same) ∙ found)
  logged_event-LoggedBy now locked none db s e f h found =
      let (student, target, l) = scan_new-Logs now locked db s h in
      let last =
        ap (find? (is_same_event p)) l.events
        ∙ find?-append_new (is_same_event p) db.events l.event f l.of_call in
      let same : l.event ≡ e = cc (last, found) in
      inl (l.events ∙ ap (λ x. db.events ++ x ∷ []) same)

  -- A call of `processQRCode` that succeeds and is made once more, at any later time, changes
  -- nothing and answers with the event of its school, session and identifier that the first call
  -- has added to the log, or has found there and written nothing.
  pub process_qr_code-again :
      (now later : ℕ) (db : Database) (s : Scanned)
      → process_qr_code sha256 dir p now db ≡ returns s
      → (e : AttendanceEvent) × IsOfCall e
        × LoggedBy db s.db e
        × (process_qr_code sha256 dir p later s.db
            ≡ returns (record {
              db = s.db;
              response =
                  ScanResponse.idempotent_duplicate e (record_of_student p e.student_id s.db);
            }))
  unfolding process_qr_code
  process_qr_code-again now later db s h =
      let c = process_qr_code-Entered now db s h in
      let (e, sessions, found) =
        logged_event now (is_finalized c.session.status) (find? (is_same_event p) db.events) db s
          refl c.once in
      let session = ap (find? (is_session p.school_id p.session_id)) sessions ∙ c.found in
      (
        e,
        of_same_event e (find?-holds (is_same_event p) s.db.events e found),
        logged_event-LoggedBy now (is_finalized c.session.status)
            (find? (is_same_event p) db.events) db s e refl c.once found,
        or_throw_of_some p.user_role _ _ c.role c.has_role
            ∙ or_throw_of_some p.actor_id _ _ c.actor c.has_actor
            ∙ or_throw_of_some (find? (is_session p.school_id p.session_id) s.db.sessions) _ _
                c.session session
            ∙ require_of_true (may_act dir p.school_id c.session.class_section_id c.actor c.role) _
                _ c.access
            ∙ ap (λ o. scan_once sha256 dir p later (is_finalized c.session.status) o s.db) found,
      )

  -- What a call answers from the log: its event, and the record of the event's student.
  abbrev pub answered_again : AttendanceEvent → Database → Scanned
  answered_again e db = record {
    db = db;
    response = ScanResponse.idempotent_duplicate e (record_of_student p e.student_id db);
  }

  scan_once-locked :
      (now : ℕ) (o : Option AttendanceEvent) (db : Database) (s : Scanned)
      → scan_once sha256 dir p now true o db ≡ returns s
      → (e : AttendanceEvent) × (o ≡ some e) × (s ≡ answered_again e db)
  scan_once-locked now (some e) db s h = (e, refl, sym (returns-injective _ _ h))
  scan_once-locked now none db s h = absurd (cc)

  -- Where `processQRCode` returns on a final session, it has changed nothing and answers for an
  -- event of its school, session and identifier that stood in the log before.
  pub process_qr_code-final :
      (now : ℕ) (session : Session) (db : Database) (s : Scanned)
      → find? (is_session p.school_id p.session_id) db.sessions ≡ some session
      → session.status ≡ SessionStatus.finalized
      → process_qr_code sha256 dir p now db ≡ returns s
      → (e : AttendanceEvent) × IsOfCall e
        × (find? (is_same_event p) db.events ≡ some e)
        × (s ≡ answered_again e db)
  process_qr_code-final now session db s found final h =
      let c = process_qr_code-Entered now db s h in
      let same : c.session ≡ session = cc (found, c.found) in
      let locked : is_finalized c.session.status ≡ true =
        ap (λ (x : Session). is_finalized x.status) same ∙ ap is_finalized final in
      let (e, logged, answer) = scan_once-locked now (find? (is_same_event p) db.events) db s (
        subst (λ b. scan_once sha256 dir p now b (find? (is_same_event p) db.events) db ≡ returns s)
          locked c.once) in
      (e, of_same_event e (find?-holds (is_same_event p) db.events e logged), logged, answer)
