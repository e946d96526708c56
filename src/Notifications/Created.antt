-- ===== src/Notifications/Created.antt =====
-- The jobs of absent students: one each, and the same after a replay.
use offline_qr_school_attend.Common.{
  ℕ, ◌≡◌, refl, sym, ap, ◌∙◌, Bool, true, ◌&&◌, ◌||◌, not, some, List, [], ◌∷◌, anyb, filterb, All,
  inl, inr, Bool-cases, find?,
}
use offline_qr_school_attend.Common.Maps.{Map, lookup}
use offline_qr_school_attend.Common.Result.{returns}
use offline_qr_school_attend.Directory.{Directory, Guardian, SmsSettings}
use mathlib.Core.Path.{subst}
use offline_qr_school_attend.Ingest.Types.{is_finalized}
use offline_qr_school_attend.Notifications.Absence.{
  Clock, absence_job, insert_absence_jobs, enqueue, absent_in, guardian_map, phone_of, is_empty,
  opted_out, is_allowed, create_absence_notification_jobs, settings_or_default, is_session,
}
use offline_qr_school_attend.Notifications.Jobs.{conflicts, add_job, insert_job}
use offline_qr_school_attend.Store.{Session, AttendanceRecord, NotificationJob, Database}
use offline_qr_school_attend.Notifications.Inserted.{
  HasDistinctJobs, add_job-HasDistinctJobs, add_job-keeps, add_job-covers,
  insert_absence_jobs-tables,
}

module _ (clock : Clock) (settings : SmsSettings) (session : Session)
    (guardians : Map Guardian) where
  -- The job of a record, up to its identifier.
  abbrev job_of : AttendanceRecord → ℕ → NotificationJob
  job_of r id = absence_job clock settings session (lookup r.student_id guardians) r id

  conflicts-job_of :
      (r : AttendanceRecord) (m n : ℕ) (k : NotificationJob)
      → conflicts (job_of r m) k ≡ conflicts (job_of r n) k
  unfolding absence_job
  conflicts-job_of r m n k =
      let g = lookup r.student_id guardians in
      elim (Bool-cases (is_empty (phone_of g))) [
        | inl missing ↦ rw missing refl
        | inr phone ↦ elim (Bool-cases (opted_out g)) [
          | inl out ↦ rw phone (rw out refl)
          | inr consents ↦
              elim (Bool-cases
                (settings.allowlist_enabled && not (is_allowed settings (phone_of g)))) [
                  | inl blocked ↦ rw phone (rw consents (rw blocked refl))
                  | inr passed ↦ rw phone (rw consents (rw passed refl))
                ]
        ]
      ]

  anyb-job_of :
      (r : AttendanceRecord) (m n : ℕ) (js : List NotificationJob)
      → anyb (conflicts (job_of r m)) js ≡ anyb (conflicts (job_of r n)) js
  anyb-job_of r m n [] = refl
  anyb-job_of r m n (k ∷ js) =
      ap (λ b. b || anyb (conflicts (job_of r m)) js) (conflicts-job_of r m n k)
      ∙ ap (λ b. conflicts (job_of r n) k || b) (anyb-job_of r m n js)

  -- The table holds a job of the record, or one under the same key.
  abbrev pub IsCovered : List NotificationJob → AttendanceRecord → Type 0
  IsCovered js r = anyb (conflicts (job_of r 0)) js ≡ true

  insert_absence_jobs-keeps :
      (q : NotificationJob → Bool) (rs : List AttendanceRecord) (db : Database)
      → anyb q db.jobs ≡ true
      → anyb q (insert_absence_jobs clock settings session guardians rs db).jobs ≡ true
  unfolding insert_absence_jobs
  insert_absence_jobs-keeps q [] db h = h
  insert_absence_jobs-keeps q (r ∷ rs) db h =
      insert_absence_jobs-keeps q rs (insert_job (job_of r) db)
        (add_job-keeps q (job_of r db.next_id) db.jobs h)

  insert_absence_jobs-HasDistinctJobs :
      (rs : List AttendanceRecord) (db : Database)
      → HasDistinctJobs db.jobs
      → HasDistinctJobs (insert_absence_jobs clock settings session guardians rs db).jobs
  unfolding insert_absence_jobs
  insert_absence_jobs-HasDistinctJobs [] db h = h
  insert_absence_jobs-HasDistinctJobs (r ∷ rs) db h =
      insert_absence_jobs-HasDistinctJobs rs (insert_job (job_of r) db)
        (add_job-HasDistinctJobs (job_of r db.next_id) db.jobs h)

  insert_absence_jobs-covers :
      (rs : List AttendanceRecord) (db : Database)
      → All (IsCovered (insert_absence_jobs clock settings session guardians rs db).jobs) rs
  unfolding insert_absence_jobs
  insert_absence_jobs-covers [] db = tt
  insert_absence_jobs-covers (r ∷ rs) db = (
    insert_absence_jobs-keeps (conflicts (job_of r 0)) rs (insert_job (job_of r) db) (
        anyb-job_of r 0 db.next_id (add_job (job_of r db.next_id) db.jobs)
        ∙ add_job-covers (job_of r db.next_id) db.jobs),
    insert_absence_jobs-covers rs (insert_job (job_of r) db),
  )

  add_job_covered :
      (r : AttendanceRecord) (n : ℕ) (js : List NotificationJob)
      → IsCovered js r
      → add_job (job_of r n) js ≡ js
  add_job_covered r n js h = rw (anyb-job_of r n 0 js ∙ h) refl

  insert_absence_jobs_covered :
      (rs : List AttendanceRecord) (db : Database)
      → All (IsCovered db.jobs) rs
      → (insert_absence_jobs clock settings session guardians rs db).jobs ≡ db.jobs
  unfolding insert_absence_jobs
  insert_absence_jobs_covered [] db h = refl
  insert_absence_jobs_covered (r ∷ rs) db (p, h) =
      let same = add_job_covered r db.next_id db.jobs p in
      insert_absence_jobs_covered rs (insert_job (job_of r) db)
        (subst (λ js. All (IsCovered js) rs) (sym same) h)
      ∙ same

-- Where the school sends SMS and the session is final, the call succeeds. Every absent record of the
-- session then has a job, or one stands under the same key; no two jobs of the table conflict,
-- where none did; and calling it once more adds no job.
pub create_absence_notification_jobs-once :
    (clock : Clock) (dir : Directory) (school id : ℕ) (s : Session) (db : Database)
    → (settings_or_default (dir.sms_settings school)).sms_enabled ≡ true
    → find? (is_session school id) db.sessions ≡ some s
    → is_finalized s.status ≡ true
    → HasDistinctJobs db.jobs
    → (db' : Database) × (db'' : Database) × (create_absence_notification_jobs clock dir school id
          db
        ≡ returns db')
      × HasDistinctJobs db'.jobs
      × All
          (IsCovered clock
            (settings_or_default (dir.sms_settings school))
            s
            (guardian_map s.school_id dir.guardians [])
            db'.jobs)
          (filterb (absent_in s.school_id s.id) db.records)
      × (create_absence_notification_jobs clock dir school id db' ≡ returns db'')
      × (db''.jobs ≡ db'.jobs)
unfolding create_absence_notification_jobs
create_absence_notification_jobs-once clock dir school id s db enabled found final h =
    let settings = settings_or_default (dir.sms_settings school) in
    let guardians = guardian_map s.school_id dir.guardians [] in
    let absent = filterb (absent_in s.school_id s.id) db.records in
    let db' = enqueue clock settings dir s db in
    let (sessions, records, events, later) =
      insert_absence_jobs-tables clock settings s guardians absent db in
    let covered = insert_absence_jobs-covers clock settings s guardians absent db in
    (
      db',
      enqueue clock settings dir s db',
      rw enabled (rw found (rw final refl)),
      insert_absence_jobs-HasDistinctJobs clock settings s guardians absent db h,
      covered,
      rw enabled (rw (ap (find? (is_session school id)) sessions ∙ found) (rw final refl)),
      ap
            (λ rs.
              (insert_absence_jobs clock settings s guardians
                (filterb (absent_in s.school_id s.id) rs) db').jobs)
            records
          ∙ insert_absence_jobs_covered clock settings s guardians absent db' covered,
    )
