-- ===== src/Notifications/Consent.antt =====
-- Whom a job may be sent to.
use mathlib.Core.Path.{subst}
use offline_qr_school_attend.Common.{
  sym, ℕ, ◌≡◌, refl, Bool, true, false, ◌&&◌, not, Option, some, List, [], ◌∷◌, ◌++◌, anyb, filterb,
  if◌then◌else◌, arith, All, inl, inr, Bool-cases, find?, ◌⊎◌,
}
use offline_qr_school_attend.Common.Maps.{Map, lookup}
use offline_qr_school_attend.Common.Result.{Result, returns, require-returns, or_throw-returns}
use offline_qr_school_attend.Directory.{Directory, Guardian, SmsSettings}
use offline_qr_school_attend.Ingest.Types.{is_finalized}
use offline_qr_school_attend.Notifications.Absence.{
  Clock, absence_job, insert_absence_jobs, enqueue, absent_in, guardian_map, phone_of, is_empty,
  opted_out, is_allowed, create_absence_notification_jobs, checked_enqueue, settings_or_default,
  is_session, JobError,
}
use offline_qr_school_attend.Notifications.Jobs.{conflicts, add_job, insert_job}
use offline_qr_school_attend.Store.{Session, AttendanceRecord, JobStatus, NotificationJob, Database}

-- The worker takes up SCHEDULED and QUEUED jobs.
abbrev pub is_due : JobStatus → Bool
is_due JobStatus.scheduled = true
is_due JobStatus.queued = true
is_due _ = false

-- The guardian has a number, has not opted out, and is on the list where the school keeps one.
pub record Consents (settings : SmsSettings) (g : Option Guardian) (phone : List ℕ) : Type 0 where
  pub of_guardian : phone ≡ phone_of g
  pub has_phone : is_empty phone ≡ false
  pub stays_in : opted_out g ≡ false
  pub listed : (settings.allowlist_enabled && not (is_allowed settings phone)) ≡ false

module _ (settings : SmsSettings) (guardians : Map Guardian) where
  -- A job that is due goes to the guardian of its student, with their consent.
  abbrev pub IsLawful : NotificationJob → Type 0
  IsLawful j =
      (is_due j.status ≡ false)
      ⊎ Consents settings (lookup j.student_id guardians) j.recipient_phone

  absence_job-IsLawful :
      (clock : Clock) (session : Session) (r : AttendanceRecord) (id : ℕ)
      → IsLawful (absence_job clock settings session (lookup r.student_id guardians) r id)
  unfolding absence_job
  absence_job-IsLawful clock session r id =
      let g = lookup r.student_id guardians in
      elim (Bool-cases (is_empty (phone_of g))) [
        | inl missing ↦ rw missing (inl refl)
        | inr phone ↦ elim (Bool-cases (opted_out g)) [
          | inl out ↦ rw phone (rw out (inl refl))
          | inr consents ↦
              elim (Bool-cases
                (settings.allowlist_enabled && not (is_allowed settings (phone_of g)))) [
                  | inl blocked ↦ rw phone (rw consents (rw blocked (inl refl)))
                  | inr passed ↦ rw phone (
                      rw consents (
                        rw passed (
                          inr (record {
                            of_guardian = refl;
                            has_phone = phone;
                            stays_in = consents;
                            listed = passed;
                          }))))
                ]
        ]
      ]

  append-All :
      (js : List NotificationJob) (j : NotificationJob)
      → All IsLawful js
      → IsLawful j
      → All IsLawful (js ++ j ∷ [])
  append-All [] j h p = (p, tt)
  append-All (k ∷ js) j (q, h) p = (q, append-All js j h p)

  add_job-IsLawful :
      (j : NotificationJob) (js : List NotificationJob)
      → IsLawful j
      → All IsLawful js
      → All IsLawful (add_job j js)
  add_job-IsLawful j js p h = elim (Bool-cases (anyb (conflicts j) js)) [
    | inl taken ↦ rw taken h
    | inr free ↦ rw free (append-All js j h p)
  ]

  insert_absence_jobs-IsLawful :
      (clock : Clock) (session : Session) (rs : List AttendanceRecord) (db : Database)
      → All IsLawful db.jobs
      → All IsLawful (insert_absence_jobs clock settings session guardians rs db).jobs
  unfolding insert_absence_jobs
  insert_absence_jobs-IsLawful clock session [] db h = h
  insert_absence_jobs-IsLawful clock session (r ∷ rs) db h =
      let job = absence_job clock settings session (lookup r.student_id guardians) r in
      insert_absence_jobs-IsLawful clock session rs (insert_job job db) (
        add_job-IsLawful (job db.next_id) db.jobs (absence_job-IsLawful clock session r db.next_id)
          h)

find?-holds : {A : Type 0} (q : A → Bool) (xs : List A) (a : A) → find? q xs ≡ some a → q a ≡ true
find?-holds q [] a h = absurd (cc)
find?-holds q (x ∷ xs) a h = ground (arith, find?-holds q xs a)

checked_enqueue-IsLawful :
    (clock : Clock) (dir : Directory) (settings : SmsSettings) (school id : ℕ) (db db' : Database)
    → All (IsLawful settings (guardian_map school dir.guardians [])) db.jobs
    → checked_enqueue clock settings dir school id db ≡ returns db'
    → All (IsLawful settings (guardian_map school dir.guardians [])) db'.jobs
checked_enqueue-IsLawful clock dir settings school id db db' lawful h =
    let (s, found, h1) = or_throw-returns (find? (is_session school id) db.sessions) _ _ _ h in
    let (final, h2) = require-returns (is_finalized s.status) _ _ _ h1 in
    let same : s.school_id ≡ school =
      ground (arith, find?-holds (is_session school id) db.sessions s found) in
    let e : enqueue clock settings dir s db ≡ db' = cc (h2) in
    subst (λ (x : Database). All (IsLawful settings (guardian_map school dir.guardians [])) x.jobs)
      e
      (subst
        (λ x.
          All (IsLawful settings (guardian_map school dir.guardians []))
            (insert_absence_jobs clock settings s (guardian_map x dir.guardians [])
              (filterb (absent_in x s.id) db.records) db).jobs)
        (sym same)
        (insert_absence_jobs-IsLawful settings (guardian_map school dir.guardians []) clock s
          (filterb (absent_in school s.id) db.records) db lawful))

-- Where every job of the table that is due goes to the guardian of its student, at a number that is
-- not empty, who has not opted out and is on the allowlist where it is in force, the call leaves
-- this true.
pub create_absence_notification_jobs-IsLawful :
    (clock : Clock) (dir : Directory) (school id : ℕ) (db db' : Database)
    → let settings = settings_or_default (dir.sms_settings school) in
      let guardians = guardian_map school dir.guardians [] in
      All (IsLawful settings guardians) db.jobs
      → create_absence_notification_jobs clock dir school id db ≡ returns db'
      → All (IsLawful settings guardians) db'.jobs
unfolding create_absence_notification_jobs
create_absence_notification_jobs-IsLawful clock dir school id db db' lawful h =
    let settings = settings_or_default (dir.sms_settings school) in
    let guardians = guardian_map school dir.guardians [] in
    elim (Bool-cases settings.sms_enabled) [
      | inl enabled ↦ checked_enqueue-IsLawful clock dir settings school id db db' lawful (
          subst
            (λ b.
              (if b then checked_enqueue clock settings dir school id db else returns db)
              ≡ returns db')
            enabled h)
      | inr disabled ↦
          let e : db ≡ db' = returned db db' (
            subst
              (λ b.
                (if b then checked_enqueue clock settings dir school id db else returns db)
                ≡ returns db')
              disabled h) in
          subst (λ (x : Database). All (IsLawful settings guardians) x.jobs) e lawful
    ]
  where
    returned :
        (x y : Database) → (let r : Result JobError Database = returns x in r ≡ returns y) → x ≡ y
    returned x y e = cc
