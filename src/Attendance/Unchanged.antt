-- ===== src/Attendance/Unchanged.antt =====
-- A corrected mark changes the notification jobs alone.
use offline_qr_school_attend.Common.{
  ℕ, ◌≤◌, ◌≡◌, refl, ◌&&◌, not, Option, none, some, find?, anyb, arith, inl, inr, Bool-cases,
}
use offline_qr_school_attend.Notifications.Jobs.{
  on_attendance_corrected, on_cleared, correct_sent, is_cancellable, is_absence_of, is_sent,
  is_absent,
}
use offline_qr_school_attend.Store.{AttendanceStatus, NotificationJob, Database}

-- A corrected mark changes the jobs alone.
pub record SameBut (db db' : Database) : Type 0 where
  pub same_sessions : db'.sessions ≡ db.sessions
  pub same_roster : db'.roster ≡ db.roster
  pub same_records : db'.records ≡ db.records
  pub same_events : db'.events ≡ db.events
  pub same_corrections : db'.corrections ≡ db.corrections
  pub later : db.next_id ≤ db'.next_id

SameBut-refl : (db : Database) → SameBut db db
SameBut-refl db = record {
  same_sessions = refl;
  same_roster = refl;
  same_records = refl;
  same_events = refl;
  same_corrections = refl;
  later = omega arith;
}

correct_sent-SameBut :
    (now id school student : ℕ) (o : Option NotificationJob) (db : Database)
    → SameBut db (correct_sent now id school student o db)
correct_sent-SameBut now id school student none db = SameBut-refl db
correct_sent-SameBut now id school student (some j) db = record {
  same_sessions = refl;
  same_roster = refl;
  same_records = refl;
  same_events = refl;
  same_corrections = refl;
  later = omega arith;
}

on_cleared-SameBut :
    (now id school student : ℕ) (db : Database) → SameBut db (on_cleared now id school student db)
on_cleared-SameBut now id school student db = elim (Bool-cases (anyb (is_cancellable id) db.jobs)) [
  | inl some_job ↦ rw some_job (record {
    same_sessions = refl;
    same_roster = refl;
    same_records = refl;
    same_events = refl;
    same_corrections = refl;
    later = omega arith;
  })
  | inr no_job ↦ rw no_job (
      correct_sent-SameBut now id school student
        (find? (λ (j : NotificationJob). is_absence_of id j && is_sent j.status) db.jobs) db)
]

pub on_attendance_corrected-SameBut :
    (now id school student : ℕ) (from to : AttendanceStatus) (db : Database)
    → SameBut db (on_attendance_corrected now id school student from to db)
unfolding on_attendance_corrected
on_attendance_corrected-SameBut now id school student from to db =
    elim (Bool-cases (is_absent from && not (is_absent to))) [
      | inl cleared ↦ rw cleared (on_cleared-SameBut now id school student db)
      | inr other ↦ rw other (SameBut-refl db)
    ]
