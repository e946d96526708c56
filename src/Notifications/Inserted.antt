-- ===== src/Notifications/Inserted.antt =====
-- The jobs that `insert` into notification_jobs adds: no key twice, and none lost.
use offline_qr_school_attend.Common.{
  ℕ, ◌≤◌, ◌≡◌, refl, Bool, true, false, ◌||◌, Option, none, some, List, [], ◌∷◌, ◌++◌, anyb, arith,
  inl, inr, Bool-cases, eq_refl,
}
use offline_qr_school_attend.Common.Maps.{Map, lookup}
use offline_qr_school_attend.Directory.{Guardian, SmsSettings}
use offline_qr_school_attend.Notifications.Absence.{Clock, absence_job, insert_absence_jobs}
use offline_qr_school_attend.Notifications.Jobs.{
  conflicts, same_option, same_value, same_kind, add_job, insert_job,
}
use offline_qr_school_attend.Store.{Session, AttendanceRecord, JobKind, NotificationJob, Database}

-- No two jobs of the table conflict.
abbrev pub HasDistinctJobs : List NotificationJob → Type 0
HasDistinctJobs [] = Unit
HasDistinctJobs (j ∷ js) = (anyb (conflicts j) js ≡ false) × HasDistinctJobs js

same_option_refl : (o : Option ℕ) → same_option o o ≡ true
same_option_refl none = refl
same_option_refl (some a) = eq_refl a

same_option-sym : (a b : Option ℕ) → same_option a b ≡ same_option b a
same_option-sym none none = refl
same_option-sym none (some b) = refl
same_option-sym (some a) none = refl
same_option-sym (some a) (some b) = ground arith

same_value-sym : (a b : Option ℕ) → same_value a b ≡ same_value b a
same_value-sym none none = refl
same_value-sym none (some b) = refl
same_value-sym (some a) none = refl
same_value-sym (some a) (some b) = ground arith

same_kind_refl : (k : JobKind) → same_kind k k ≡ true
same_kind_refl JobKind.absence = refl
same_kind_refl JobKind.correction = refl

same_kind-sym : (a b : JobKind) → same_kind a b ≡ same_kind b a
same_kind-sym JobKind.absence JobKind.absence = refl
same_kind-sym JobKind.absence JobKind.correction = refl
same_kind-sym JobKind.correction JobKind.absence = refl
same_kind-sym JobKind.correction JobKind.correction = refl

-- A job conflicts with itself, and conflicts are mutual.
pub conflicts_refl : (j : NotificationJob) → conflicts j j ≡ true
conflicts_refl j =
    ground
      (arith, same_option_refl j.finalized_attendance_version, same_kind_refl j.notification_type)

conflicts-sym : (j k : NotificationJob) → conflicts j k ≡ conflicts k j
conflicts-sym j k = ground (
  arith,
  same_option-sym j.finalized_attendance_version k.finalized_attendance_version,
  same_kind-sym j.notification_type k.notification_type,
  same_kind-sym j.kind k.kind,
  same_value-sym j.attendance_record_id k.attendance_record_id,
)

anyb-append_one :
    (q : NotificationJob → Bool) (js : List NotificationJob) (j : NotificationJob)
    → anyb q (js ++ j ∷ []) ≡ (anyb q js || q j)
anyb-append_one q [] j = ground arith
anyb-append_one q (k ∷ js) j = ground (arith, anyb-append_one q js j)

append-HasDistinctJobs :
    (js : List NotificationJob) (j : NotificationJob)
    → HasDistinctJobs js
    → anyb (conflicts j) js ≡ false
    → HasDistinctJobs (js ++ j ∷ [])
append-HasDistinctJobs [] j h e = (refl, tt)
append-HasDistinctJobs (k ∷ js) j (p, h) e = (
  ground (arith, anyb-append_one (conflicts k) js j, conflicts-sym j k),
  append-HasDistinctJobs js j h (ground arith),
)

pub add_job-HasDistinctJobs :
    (j : NotificationJob) (js : List NotificationJob)
    → HasDistinctJobs js
    → HasDistinctJobs (add_job j js)
add_job-HasDistinctJobs j js h = elim (Bool-cases (anyb (conflicts j) js)) [
  | inl taken ↦ rw taken h
  | inr free ↦ rw free (append-HasDistinctJobs js j h free)
]

pub add_job-keeps :
    (q : NotificationJob → Bool) (j : NotificationJob) (js : List NotificationJob)
    → anyb q js ≡ true
    → anyb q (add_job j js) ≡ true
add_job-keeps q j js h = elim (Bool-cases (anyb (conflicts j) js)) [
  | inl taken ↦ rw taken h
  | inr free ↦ rw free (ground (arith, anyb-append_one q js j))
]

pub add_job-covers :
    (j : NotificationJob) (js : List NotificationJob) → anyb (conflicts j) (add_job j js) ≡ true
add_job-covers j js = elim (Bool-cases (anyb (conflicts j) js)) [
  | inl taken ↦ rw taken taken
  | inr free ↦ rw free (ground (arith, anyb-append_one (conflicts j) js j, conflicts_refl j))
]

-- Creating jobs touches no table but that of the jobs.
pub insert_absence_jobs-tables :
    (clock : Clock) (settings : SmsSettings) (session : Session) (guardians : Map Guardian)
    (rs : List AttendanceRecord) (db : Database)
    → let db' = insert_absence_jobs clock settings session guardians rs db in
      (db'.sessions ≡ db.sessions)
      × (db'.records ≡ db.records)
      × (db'.events ≡ db.events)
      × (db.next_id ≤ db'.next_id)
unfolding insert_absence_jobs
insert_absence_jobs-tables clock settings session guardians [] db = (refl, refl, refl, omega arith)
insert_absence_jobs-tables clock settings session guardians (r ∷ rs) db =
    let (a, b, c, later) =
      insert_absence_jobs-tables clock settings session guardians rs
        (insert_job (absence_job clock settings session (lookup r.student_id guardians) r) db) in
    (a, b, c, omega (arith, later))
