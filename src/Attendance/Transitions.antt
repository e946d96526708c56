-- ===== src/Attendance/Transitions.antt =====
-- The state machine of sessions: which updates succeed, and what they leave.
use mathlib.Core.Path.{subst}
use offline_qr_school_attend.Common.{
  ◌≤◌, ℕ, ◌≡◌, ◌≢◌, ◌↔◌, refl, ap, ◌∙◌, true, false, some, [], map, find?, filterb, arith, ◌⊎◌, inl,
  inr, Bool-cases,
}
use offline_qr_school_attend.Common.Result.{
  returns, require-returns, or_throw-returns, bind-returns,
}
use offline_qr_school_attend.Directory.{Directory, is_admin}
use offline_qr_school_attend.Ingest.Types.{SessionStatus, is_finalized}
use offline_qr_school_attend.Notifications.Absence.{
  Clock, create_absence_notification_jobs, is_session, enqueue, absent_in, guardian_map,
  settings_or_default,
}
use offline_qr_school_attend.Notifications.Inserted.{insert_absence_jobs-tables}
use offline_qr_school_attend.Attendance.Access.{may_act}
use offline_qr_school_attend.Attendance.Status.{
  is_blank, check_transition, set_status, with_status, store_status, update_session_status,
  notify_absences, lift_job_error,
}
use offline_qr_school_attend.Attendance.Types.{StatusParams}
use offline_qr_school_attend.Store.{Session, Database}
use offline_qr_school_attend.Attendance.StatusTables.{
  records_after, store_status-tables, find?-set_status, finalized-cases, reopened-cases,
}

-- The guards of an update, as a statement of the tables and the parameters.
pub record Allowed (dir : Directory) (p : StatusParams) (db : Database) : Type 0 where
  pub session : Session
  pub found : find? (is_session p.school_id p.session_id) db.sessions ≡ some session
  pub access : may_act dir p.school_id session.class_section_id p.actor_id p.user_role ≡ true
  pub unlocked :
      (session.status ≢ SessionStatus.finalized) ⊎ (p.new_status ≡ SessionStatus.reopened)
  pub reopening :
      (p.new_status ≢ SessionStatus.reopened)
      ⊎ ((is_admin p.user_role ≡ true) × (is_blank p.reason ≡ false))

module _ (clock : Clock) (dir : Directory) where
  -- Where the session is final, the jobs are created.
  create_absence_notification_jobs-returns :
      (school id : ℕ) (s : Session) (db : Database)
      → find? (is_session school id) db.sessions ≡ some s
      → is_finalized s.status ≡ true
      → (db' : Database) × (create_absence_notification_jobs clock dir school id db ≡ returns db')
        × (db'.sessions ≡ db.sessions)
        × (db'.records ≡ db.records)
        × (db.next_id ≤ db'.next_id)
  unfolding create_absence_notification_jobs
  create_absence_notification_jobs-returns school id s db found final =
      let settings = settings_or_default (dir.sms_settings school) in
      elim (Bool-cases settings.sms_enabled) [
        | inl enabled ↦
            let (a, b, c, later) =
              insert_absence_jobs-tables clock settings s
                (guardian_map s.school_id dir.guardians [])
                (filterb (absent_in s.school_id s.id) db.records) db in
            (enqueue clock settings dir s db, rw enabled (rw found (rw final refl)), a, b, later)
        | inr disabled ↦ (db, rw disabled refl, refl, refl, omega arith)
      ]

  notify_absences-returns :
      (p : StatusParams) (s : Session) (db : Database)
      → find? (is_session p.school_id p.session_id) db.sessions ≡ some (with_status p clock.now s)
      → (db' : Database) × (notify_absences clock dir p db ≡ returns db')
        × (db'.sessions ≡ db.sessions)
        × (db'.records ≡ db.records)
        × (db.next_id ≤ db'.next_id)
  notify_absences-returns p s db found = elim (Bool-cases (is_finalized p.new_status)) [
    | inl final ↦
        let (db', made, a, b, later) =
          create_absence_notification_jobs-returns p.school_id p.session_id
            (with_status p clock.now s) db found (rw final final) in
        (db', rw final (ap lift_job_error made), a, b, later)
    | inr other ↦ (db, rw other refl, refl, refl, omega arith)
  ]

  -- What an update that succeeds leaves of the sessions and of the records.
  pub record Stored (p : StatusParams) (db db' : Database) : Type 0 where
    pub sessions : db'.sessions ≡ map (set_status p clock.now) db.sessions
    pub records : db'.records ≡ records_after p clock.now db.records
    pub later : db.next_id ≤ db'.next_id

  check_transition_of_Allowed :
      (p : StatusParams) (db : Database) (a : Allowed dir p db)
      → check_transition p a.session.status ≡ returns tt
  check_transition_of_Allowed p db a = ground (arith, a.unlocked, a.reopening)

  unlocked_of_check :
      (p : StatusParams) (current : SessionStatus)
      → check_transition p current ≡ returns tt
      → (current ≢ SessionStatus.finalized) ⊎ (p.new_status ≡ SessionStatus.reopened)
  unlocked_of_check p current h = elim (reopened-cases p.new_status) [
    | inl (reopens, _) ↦ inr reopens
    | inr (_, stays) ↦ elim (finalized-cases current) [
      | inl (_, final) ↦ absurd (ground (arith, h, stays, final))
      | inr (other, _) ↦ inl other
    ]
  ]

  reopening_of_check :
      (p : StatusParams) (current : SessionStatus)
      → check_transition p current ≡ returns tt
      → (p.new_status ≢ SessionStatus.reopened)
        ⊎ ((is_admin p.user_role ≡ true) × (is_blank p.reason ≡ false))
  reopening_of_check p current h = elim (reopened-cases p.new_status) [
    | inl (_, reopens) ↦ inr (ground (arith, h, reopens), ground (arith, h, reopens))
    | inr (other, _) ↦ inl other
  ]

  Allowed-of_returns :
      (p : StatusParams) (db db' : Database)
      → update_session_status clock dir p db ≡ returns db'
      → Allowed dir p db
  unfolding update_session_status
  Allowed-of_returns p db db' h =
      let (s, found, h1) =
        or_throw-returns (find? (is_session p.school_id p.session_id) db.sessions) _ _ _ h in
      let (access, h2) =
        require-returns (may_act dir p.school_id s.class_section_id p.actor_id p.user_role) _ _ _
          h1 in
      let (passed, checked, h3) = bind-returns (check_transition p s.status) _ _ h2 in
      record {
        session = s;
        found = found;
        access = access;
        unlocked = unlocked_of_check p s.status checked;
        reopening = reopening_of_check p s.status checked;
      }

  returns_of_Allowed :
      (p : StatusParams) (db : Database)
      → Allowed dir p db
      → (db' : Database) × (update_session_status clock dir p db ≡ returns db') × Stored p db db'
  unfolding update_session_status
  returns_of_Allowed p db a =
      let (s, r, l) = store_status-tables p clock.now db in
      let (db', made, s', r', l') =
        notify_absences-returns p a.session (store_status p clock.now db) (
          ap (find? (is_session p.school_id p.session_id)) s
          ∙ find?-set_status p clock.now db.sessions a.session a.found) in
      (
        db',
        rw a.found (rw a.access (rw (check_transition_of_Allowed p db a) made)),
        record { sessions = s' ∙ s; records = r' ∙ r; later = omega (arith, l, l') },
      )

  -- An update of a status succeeds exactly when its guards hold: the session exists, the actor may
  -- act on its section, a final session is only reopened, and only an administrator reopens one,
  -- with a reason that is not blank.
  pub update_session_status_iff :
      (p : StatusParams) (db : Database)
      → ((db' : Database) × (update_session_status clock dir p db ≡ returns db')) ↔ Allowed dir p db
  update_session_status_iff p db = (
    λ (db', h). Allowed-of_returns p db db' h,
    λ a. let (db', h, u) = returns_of_Allowed p db a in (db', h),
  )

  pub update_session_status-Stored :
      (p : StatusParams) (db db' : Database)
      → update_session_status clock dir p db ≡ returns db'
      → Stored p db db'
  update_session_status-Stored p db db' h =
      let (db2, h2, u) = returns_of_Allowed p db (Allowed-of_returns p db db' h) in
      let e : db2 ≡ db' = cc (h, h2) in subst (Stored p db) e u
