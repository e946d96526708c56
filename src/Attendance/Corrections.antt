-- ===== src/Attendance/Corrections.antt =====
-- What `manualStatusUpdate` writes to a final session.
use mathlib.Core.Path.{subst}
use offline_qr_school_attend.Common.{
  ℕ, suc, ◌≡◌, refl, ap, ◌∙◌, Bool, true, false, ◌||◌, not, Option, none, some, is_some, List, [],
  ◌∷◌, ◌++◌, find?, anyb, arith, ◌⊎◌, inl, inr, Bool-cases,
}
use offline_qr_school_attend.Common.Result.{
  Result-cases, returns, require-returns, or_throw-returns, bind-returns,
}
use offline_qr_school_attend.Directory.{Directory, is_admin}
use offline_qr_school_attend.Ingest.Epc.{trim}
use offline_qr_school_attend.Ingest.Types.{is_finalized, SessionStatus}
use offline_qr_school_attend.Notifications.Absence.{is_session, is_empty}
use offline_qr_school_attend.Attendance.Access.{may_act}
use offline_qr_school_attend.Attendance.Manual.{
  check_correction, check_manual, manual_status_update, with_record, without_record, change_mark,
  mark_unrecorded, find_record, insert_correction, manual_correction, manual_event, manual_record,
  manual_mark,
}
use offline_qr_school_attend.Attendance.Unchanged.{on_attendance_corrected-SameBut}
use offline_qr_school_attend.Attendance.ScanLog.{guard_returns, insert_event-returns}
use offline_qr_school_attend.Attendance.Status.{is_blank}
use offline_qr_school_attend.Attendance.Tables.{
  insert_event, insert_record, is_on_roster, same_status, update_by_id,
}
use offline_qr_school_attend.Attendance.Types.{Failure, ManualParams}
use offline_qr_school_attend.Store.{
  AttendanceStatus, AttendanceRecord, Correction, Database, Session, record_at,
}

-- A correction of the call stands at the end of the log.
pub record IsCorrected (p : ManualParams) (db db' : Database) : Type 0 where
  pub entry : Correction
  pub appended : db'.corrections ≡ db.corrections ++ entry ∷ []
  pub with_reason : entry.reason ≡ p.reason
  pub by_actor : entry.corrected_by ≡ p.actor_id
  pub to_status : entry.new_status ≡ p.new_status

abbrev LogsChange : ManualParams → Database → Database → Type 0
LogsChange p db db' = (db'.records ≡ db.records) ⊎ IsCorrected p db db'

correction_of :
    (p : ManualParams) (id : ℕ) (previous : AttendanceStatus) (db db' : Database)
    → db'.corrections ≡ db.corrections ++ manual_correction p id previous ∷ []
    → IsCorrected p db db'
correction_of p id previous db db' h = record {
  entry = manual_correction p id previous;
  appended = h;
  with_reason = refl;
  by_actor = refl;
  to_status = refl;
}

mark_unrecorded-LogsChange :
    (p : ManualParams) (now student : ℕ) (db : Database)
    → is_empty p.reason ≡ false
    → LogsChange p db (mark_unrecorded p now student db).db
mark_unrecorded-LogsChange p now student db reason =
    let row = manual_record p now student in
    let e = manual_event p now student in
    elim (Result-cases (insert_record row db)) [
      | inl (f, failed) ↦ inl (rw failed refl)
      | inr (inserted, done) ↦
          let corrected = insert_correction p db.next_id AttendanceStatus.unmarked inserted in
          let kept : corrected.corrections
              ≡ db.corrections ++ manual_correction p db.next_id AttendanceStatus.unmarked ∷ [] =
            ap
              (λ (x : Database).
                x.corrections ++ manual_correction p db.next_id AttendanceStatus.unmarked ∷ [])
              (guard_returns
                (is_some (record_at (row db.next_id).attendance_session_id student db.records))
                Failure.unique_violation
                (record db {
                  next_id = suc db.next_id;
                  records = db.records ++ row db.next_id ∷ [];
                })
                inserted done) in
          elim (Result-cases (insert_event e corrected)) [
            | inl (f, failed) ↦ inr (
                correction_of p db.next_id AttendanceStatus.unmarked db
                  (mark_unrecorded p now student db).db (rw done (rw reason (rw failed kept))))
            | inr (logged, stored) ↦ inr (
                correction_of p db.next_id AttendanceStatus.unmarked db
                  (mark_unrecorded p now student db).db
                  (rw done (
                    rw reason (
                      rw stored (
                        ap (λ (x : Database). x.corrections)
                          (insert_event-returns e corrected logged stored)
                        ∙ kept)))))
          ]
    ]

change_mark-LogsChange :
    (p : ManualParams) (now : ℕ) (r : AttendanceRecord) (db : Database)
    → LogsChange p db (change_mark p now true r db).db
change_mark-LogsChange p now r db =
    let e = manual_event p now r.student_id in
    let corrected = insert_correction p r.id r.status db in
    elim (Result-cases (insert_event e corrected)) [
      | inl (f, failed) ↦ inl (rw failed refl)
      | inr (logged, done) ↦
          let marked = record logged {
            records = update_by_id r.id (manual_mark p now) logged.records;
          } in
          let same =
            on_attendance_corrected-SameBut now r.id p.school_id r.student_id r.status p.new_status
              marked in
          inr (
            correction_of p r.id r.status db (change_mark p now true r db).db (
              rw done (
                same.same_corrections
                ∙ ap (λ (x : Database). x.corrections)
                    (insert_event-returns e corrected logged done))))
    ]

without_record-LogsChange :
    (p : ManualParams) (now : ℕ) (o : Option ℕ) (db : Database)
    → is_empty p.reason ≡ false
    → LogsChange p db (without_record p now o db).db
without_record-LogsChange p now none db reason = inl refl
without_record-LogsChange p now (some student) db reason =
    elim (Bool-cases (anyb (is_on_roster p.session_id student) db.roster)) [
      | inl listed ↦ rw listed (mark_unrecorded-LogsChange p now student db reason)
      | inr unlisted ↦ inl (rw unlisted refl)
    ]

with_record-LogsChange :
    (p : ManualParams) (now : ℕ) (o : Option AttendanceRecord) (db : Database)
    → is_empty p.reason ≡ false
    → LogsChange p db (with_record p now true o db).db
with_record-LogsChange p now none db reason = without_record-LogsChange p now p.student_id db reason
with_record-LogsChange p now (some r) db reason =
    elim (Bool-cases (same_status r.status p.new_status)) [
      | inl same ↦ inl (rw same refl)
      | inr other ↦ rw other (change_mark-LogsChange p now r db)
    ]

not_empty_of_not_blank : (reason : List ℕ) → is_blank reason ≡ false → is_empty reason ≡ false
unfolding trim
not_empty_of_not_blank [] h = h
not_empty_of_not_blank (c ∷ s) h = refl

check_correction-locked :
    (p : ManualParams) (x : Unit {0})
    → check_correction p true ≡ returns x
    → (is_admin p.user_role ≡ true) × (is_blank p.reason ≡ false)
check_correction-locked p x h =
    let (admin, h1) = require-returns (not true || is_admin p.user_role) _ _ _ h in
    (admin, ground (arith, h1))

module _ (dir : Directory) (p : ManualParams) (db : Database) where
  check_manual-final :
      (s : Session) (locked : Bool)
      → find? (is_session p.school_id p.session_id) db.sessions ≡ some s
      → s.status ≡ SessionStatus.finalized
      → check_manual dir p db ≡ returns locked
      → (locked ≡ true) × (is_admin p.user_role ≡ true) × (is_blank p.reason ≡ false)
  unfolding check_manual
  check_manual-final s locked found final h =
      let (s', found', h1) =
        or_throw-returns (find? (is_session p.school_id p.session_id) db.sessions) _ _ _ h in
      let (access, h2) =
        require-returns (may_act dir p.school_id s'.class_section_id p.actor_id p.user_role) _ _ _
          h1 in
      let (passed, checked, h3) =
        bind-returns (check_correction p (is_finalized s'.status)) _ _ h2 in
      let same : s' ≡ s = cc (found, found') in
      let is_final : is_finalized s'.status ≡ true =
        ap (λ (x : Session). is_finalized x.status) same ∙ ap is_finalized final in
      let (admin, reason) =
        check_correction-locked p passed
          (subst (λ b. check_correction p b ≡ returns passed) is_final checked) in
      (cc (h3, is_final), admin, reason)

  -- Whatever a call of `manualStatusUpdate` on a final session returns or throws, it has changed no
  -- attendance record, or it was made by an administrator, with a reason that is not blank, and the
  -- log of corrections ends with an entry that holds the actor, the reason and the new status.
  pub manual_status_update-final :
      (now : ℕ) (s : Session)
      → find? (is_session p.school_id p.session_id) db.sessions ≡ some s
      → s.status ≡ SessionStatus.finalized
      → let db' = (manual_status_update dir p now db).db in
        (db'.records ≡ db.records)
        ⊎ ((is_admin p.user_role ≡ true) × (is_blank p.reason ≡ false) × IsCorrected p db db')
  unfolding manual_status_update
  manual_status_update-final now s found final = elim (Result-cases (check_manual dir p db)) [
    | inl (e, failed) ↦ inl (rw failed refl)
    | inr (locked, passed) ↦
        let (is_locked, admin, reason) = check_manual-final s locked found final passed in
        let check = passed ∙ ap (λ b. returns b) is_locked in
        elim (with_record-LogsChange p now (find_record p p.record_id p.student_id db) db
          (not_empty_of_not_blank p.reason reason)) [
            | inl same ↦ inl (rw check same)
            | inr logged ↦ inr (admin, reason, rw check logged)
          ]
  ]
