-- ===== src/Notifications/Cancelled.antt =====
-- A corrected mark takes back the SMS that has not been sent.
use offline_qr_school_attend.Common.{
  ℕ, ◌≡◌, refl, true, false, ◌&&◌, Option, none, some, List, [], ◌∷◌, ◌++◌, map, anyb, find?, arith,
  inl, inr, Bool-cases,
}
use offline_qr_school_attend.Notifications.Jobs.{
  is_cancellable, is_absence_of, is_sent, is_absent, cancel_job, correction_job, correct_sent,
  on_attendance_corrected, add_job, conflicts,
}
use offline_qr_school_attend.Store.{AttendanceStatus, NotificationJob, Database}

cancel_job-cancelled : (id : ℕ) (j : NotificationJob) → is_cancellable id (cancel_job id j) ≡ false
cancel_job-cancelled id j = elim (Bool-cases (is_cancellable id j)) [
  | inl due ↦ rw due (ground arith)
  | inr other ↦ rw other other
]

all_cancelled :
    (id : ℕ) (js : List NotificationJob) → anyb (is_cancellable id) (map (cancel_job id) js) ≡ false
all_cancelled id [] = refl
all_cancelled id (j ∷ js) = ground (arith, cancel_job-cancelled id j, all_cancelled id js)

append-cancelled :
    (id : ℕ) (js : List NotificationJob) (j : NotificationJob)
    → anyb (is_cancellable id) js ≡ false
    → is_cancellable id j ≡ false
    → anyb (is_cancellable id) (js ++ j ∷ []) ≡ false
append-cancelled id [] j h k = rw k refl
append-cancelled id (i ∷ js) j h k = ground (arith, append-cancelled id js j)

add_job-cancelled :
    (id : ℕ) (j : NotificationJob) (js : List NotificationJob)
    → anyb (is_cancellable id) js ≡ false
    → is_cancellable id j ≡ false
    → anyb (is_cancellable id) (add_job j js) ≡ false
add_job-cancelled id j js h k = elim (Bool-cases (anyb (conflicts j) js)) [
  | inl taken ↦ rw taken h
  | inr free ↦ rw free (append-cancelled id js j h k)
]

correct_sent-cancelled :
    (now id school student : ℕ) (o : Option NotificationJob) (db : Database)
    → anyb (is_cancellable id) db.jobs ≡ false
    → anyb (is_cancellable id) (correct_sent now id school student o db).jobs ≡ false
correct_sent-cancelled now id school student none db h = h
correct_sent-cancelled now id school student (some j) db h =
    add_job-cancelled id (correction_job now id school student j db.next_id) db.jobs h
      (ground arith)

-- Where a mark changes from ABSENT to another, no absence job of the record is still scheduled.
pub on_attendance_corrected-cancelled :
    (now id school student : ℕ) (from to : AttendanceStatus) (db : Database)
    → is_absent from ≡ true
    → is_absent to ≡ false
    → anyb (is_cancellable id) (on_attendance_corrected now id school student from to db).jobs
      ≡ false
unfolding on_attendance_corrected
on_attendance_corrected-cancelled now id school student from to db was now_other = rw was (
    rw now_other (elim (Bool-cases (anyb (is_cancellable id) db.jobs)) [
      | inl due ↦ rw due (all_cancelled id db.jobs)
      | inr none_due ↦ rw none_due (
          correct_sent-cancelled now id school student
            (find? (λ (j : NotificationJob). is_absence_of id j && is_sent j.status) db.jobs) db
            none_due)
    ]))
