-- ===== src/Attendance/ManualMarks.antt =====
-- The manual marks keep the tables well-formed, whether a call returns or throws.
use offline_qr_school_attend.Common.{
  ℕ, ◌<◌, refl, Bool, ◌||◌, not, Option, none, some, find?, anyb, if◌then◌else◌, arith, inl, inr,
  Bool-cases,
}
use offline_qr_school_attend.Common.Result.{Result-cases, or_throw-returns}
use offline_qr_school_attend.Directory.{Directory}
use offline_qr_school_attend.Notifications.Absence.{is_session, is_empty}
use offline_qr_school_attend.Attendance.Invariant.{
  insert_event-WellFormed, update_by_id-WellFormed, corrected-WellFormed,
}
use offline_qr_school_attend.Attendance.Kept.{
  carry-WellFormed, insert_record-WellFormed, found_below,
}
use offline_qr_school_attend.Attendance.Manual.{
  check_manual, manual_status_update, with_record, without_record, change_mark, mark_unrecorded,
  find_record, insert_correction, manual_event, manual_record, manual_mark,
}
use offline_qr_school_attend.Attendance.Tables.{
  insert_event, insert_record, update_by_id, same_status, is_on_roster,
}
use offline_qr_school_attend.Attendance.Types.{ManualParams}
use offline_qr_school_attend.Attendance.Unique.{WellFormed}
use offline_qr_school_attend.Store.{AttendanceStatus, AttendanceRecord, Database}

module _ (p : ManualParams) (now : ℕ) where
  insert_correction-WellFormed :
      (id : ℕ) (previous : AttendanceStatus) (db : Database)
      → WellFormed db
      → WellFormed (insert_correction p id previous db)
  insert_correction-WellFormed id previous db w =
      carry-WellFormed db (insert_correction p id previous db) refl refl (omega arith) w

  change_mark-WellFormed :
      (locked : Bool) (r : AttendanceRecord) (db : Database)
      → WellFormed db
      → WellFormed (change_mark p now locked r db).db
  change_mark-WellFormed locked r db w =
      let e = manual_event p now r.student_id in
      let corrected =
        if locked || not (is_empty p.reason) then insert_correction p r.id r.status db else db in
      let kept : WellFormed corrected = elim (Bool-cases (locked || not (is_empty p.reason))) [
        | inl logs ↦ rw logs (insert_correction-WellFormed r.id r.status db w)
        | inr silent ↦ rw silent w
      ] in
      elim (Result-cases (insert_event e corrected)) [
        | inl (f, failed) ↦ rw failed kept
        | inr (logged, done) ↦ rw done (
            corrected-WellFormed now r.id p.school_id r.student_id r.status p.new_status
              (record logged { records = update_by_id r.id (manual_mark p now) logged.records })
              (update_by_id-WellFormed r.id (manual_mark p now) logged
                (λ x. record { same_id = refl; same_session = refl; same_student = refl })
                (insert_event-WellFormed e corrected logged done kept)))
      ]

  mark_unrecorded-WellFormed :
      (student : ℕ) (db : Database)
      → p.session_id < db.next_id
      → WellFormed db
      → WellFormed (mark_unrecorded p now student db).db
  mark_unrecorded-WellFormed student db below w =
      let row = manual_record p now student in
      let e = manual_event p now student in
      elim (Result-cases (insert_record row db)) [
        | inl (f, failed) ↦ rw failed w
        | inr (inserted, done) ↦
            let wi = insert_record-WellFormed row db inserted refl below done w in
            let corrected =
              if is_empty p.reason
              then inserted
              else insert_correction p db.next_id AttendanceStatus.unmarked inserted in
            let kept : WellFormed corrected = elim (Bool-cases (is_empty p.reason)) [
              | inl silent ↦ rw silent wi
              | inr logs ↦
                  rw logs
                    (insert_correction-WellFormed db.next_id AttendanceStatus.unmarked inserted wi)
            ] in
            elim (Result-cases (insert_event e corrected)) [
              | inl (f, failed) ↦ rw done (rw failed kept)
              | inr (logged, stored) ↦
                  rw done (rw stored (insert_event-WellFormed e corrected logged stored kept))
            ]
      ]

  without_record-WellFormed :
      (o : Option ℕ) (db : Database)
      → p.session_id < db.next_id
      → WellFormed db
      → WellFormed (without_record p now o db).db
  without_record-WellFormed none db below w = w
  without_record-WellFormed (some student) db below w =
      elim (Bool-cases (anyb (is_on_roster p.session_id student) db.roster)) [
        | inl listed ↦ rw listed (mark_unrecorded-WellFormed student db below w)
        | inr unlisted ↦ rw unlisted w
      ]

  with_record-WellFormed :
      (locked : Bool) (o : Option AttendanceRecord) (db : Database)
      → p.session_id < db.next_id
      → WellFormed db
      → WellFormed (with_record p now locked o db).db
  with_record-WellFormed locked none db below w = without_record-WellFormed p.student_id db below w
  with_record-WellFormed locked (some r) db below w =
      elim (Bool-cases (same_status r.status p.new_status)) [
        | inl same ↦ rw same w
        | inr other ↦ rw other (change_mark-WellFormed locked r db w)
      ]

  pub manual_status_update-WellFormed :
      (dir : Directory) (db : Database)
      → WellFormed db
      → WellFormed (manual_status_update dir p now db).db
  unfolding manual_status_update check_manual
  manual_status_update-WellFormed dir db w = elim (Result-cases (check_manual dir p db)) [
    | inl (e, failed) ↦ rw failed w
    | inr (locked, passed) ↦
        let (s, found, rest) =
          or_throw-returns (find? (is_session p.school_id p.session_id) db.sessions) _ _ _ passed in
        rw passed (
          with_record-WellFormed locked (find_record p p.record_id p.student_id db) db
            (found_below p.school_id p.session_id db.next_id db.sessions s found w.sessions_below)
            w)
  ]
