-- ===== src/Attendance/Effects.antt =====
-- What an update of a status does to each session and to each record.
use mathlib.Core.Path.{subst}
use offline_qr_school_attend.Common.{
  ℕ, ◌==◌, ◌≡◌, ◌≢◌, refl, sym, true, false, ◌&&◌, List, [], ◌∷◌, map, arith, ◌⊎◌, inl, inr,
  Bool-cases,
}
use offline_qr_school_attend.Common.Result.{returns}
use offline_qr_school_attend.Directory.{Directory}
use offline_qr_school_attend.Ingest.Types.{SessionStatus, is_finalized}
use offline_qr_school_attend.Notifications.Absence.{Clock, is_session}
use offline_qr_school_attend.Attendance.Status.{
  update_session_status, is_unmarked_in, is_unmarked, mark_record_absent, set_status,
}
use offline_qr_school_attend.Attendance.StatusTables.{records_after}
use offline_qr_school_attend.Attendance.Transitions.{update_session_status-Stored}
use offline_qr_school_attend.Attendance.Types.{StatusParams}
use offline_qr_school_attend.Store.{Session, AttendanceStatus, AttendanceRecord, Database}

-- Two lists whose elements are related one by one.
abbrev pub Zip : {A : Type 0} → (A → A → Type 0) → List A → List A → Type 0
Zip R [] [] = Unit
Zip R (x ∷ xs) (y ∷ ys) = R x y × Zip R xs ys
Zip R _ _ = ⊥

Zip-map :
    {A : Type 0} (R : A → A → Type 0) (f : A → A) (xs : List A)
    → ((x : A) → R x (f x))
    → Zip R xs (map f xs)
Zip-map R f [] h = tt
Zip-map R f (x ∷ xs) h = (h x, Zip-map R f xs h)

Zip-same : {A : Type 0} (R : A → A → Type 0) (xs : List A) → ((x : A) → R x x) → Zip R xs xs
Zip-same R [] h = tt
Zip-same R (x ∷ xs) h = (h x, Zip-same R xs h)

module _ (p : StatusParams) where
  -- The session of the call takes the new status.
  pub record TakesStatus (s s' : Session) : Type 0 where
    pub of_call : (s.id ≡ p.session_id) × (s.school_id ≡ p.school_id)
    pub new_status : s'.status ≡ p.new_status
    pub same_id : s'.id ≡ s.id
    pub same_school : s'.school_id ≡ s.school_id
    pub same_section : s'.class_section_id ≡ s.class_section_id
    pub same_date : s'.session_date ≡ s.session_date
    pub same_type : s'.session_type ≡ s.session_type

  -- Any other stays as it is.
  abbrev pub SessionStep : Session → Session → Type 0
  SessionStep s s' =
      TakesStatus s s' ⊎ ((s' ≡ s) × ((s.id ≢ p.session_id) ⊎ (s.school_id ≢ p.school_id)))

  -- An unmarked record of the session becomes absent, where the call finalises and asks for it.
  pub record TurnsAbsent (r r' : AttendanceRecord) : Type 0 where
    pub asked : (p.new_status ≡ SessionStatus.finalized) × (p.auto_mark_absent_for_unmarked ≡ true)
    pub of_session : (r.attendance_session_id ≡ p.session_id) × (r.school_id ≡ p.school_id)
    pub was_unmarked : r.status ≡ AttendanceStatus.unmarked
    pub is_absent : r'.status ≡ AttendanceStatus.absent
    pub same_id : r'.id ≡ r.id
    pub same_session : r'.attendance_session_id ≡ r.attendance_session_id
    pub same_student : r'.student_id ≡ r.student_id
    pub same_capture : r'.capture_method ≡ r.capture_method

  abbrev pub RecordStep : AttendanceRecord → AttendanceRecord → Type 0
  RecordStep r r' = TurnsAbsent r r' ⊎ (r' ≡ r)

  neither :
      (s : Session)
      → is_session p.school_id p.session_id s ≡ false
      → (s.id ≢ p.session_id) ⊎ (s.school_id ≢ p.school_id)
  neither s h = elim (Bool-cases (s.id == p.session_id)) [
    | inl same ↦ inr (λ e. ground (arith, h, same, e))
    | inr other ↦ inl (λ e. ground (arith, other, e))
  ]

  set_status-SessionStep : (now : ℕ) (s : Session) → SessionStep s (set_status p now s)
  set_status-SessionStep now s = elim (Bool-cases (is_session p.school_id p.session_id s)) [
    | inl same ↦ inl (elim (Bool-cases (is_finalized p.new_status)) [
      | inl final ↦ rw same (
          rw final (record {
            of_call = (ground arith, ground arith);
            new_status = refl;
            same_id = refl;
            same_school = refl;
            same_section = refl;
            same_date = refl;
            same_type = refl;
          }))
      | inr other ↦ rw same (
          rw other (record {
            of_call = (ground arith, ground arith);
            new_status = refl;
            same_id = refl;
            same_school = refl;
            same_section = refl;
            same_date = refl;
            same_type = refl;
          }))
    ])
    | inr other ↦ inr (rw other refl, neither s other)
  ]

  unmarked_lem : (s : AttendanceStatus) → is_unmarked s ≡ true → s ≡ AttendanceStatus.unmarked
  unmarked_lem AttendanceStatus.unmarked h = refl
  unmarked_lem AttendanceStatus.present h = absurd (cc)
  unmarked_lem AttendanceStatus.late h = absurd (cc)
  unmarked_lem AttendanceStatus.absent h = absurd (cc)
  unmarked_lem AttendanceStatus.excused h = absurd (cc)
  unmarked_lem AttendanceStatus.leave h = absurd (cc)

  final_lem : (s : SessionStatus) → is_finalized s ≡ true → s ≡ SessionStatus.finalized
  final_lem SessionStatus.draft h = absurd (cc)
  final_lem SessionStatus.opened h = absurd (cc)
  final_lem SessionStatus.review h = absurd (cc)
  final_lem SessionStatus.finalized h = refl
  final_lem SessionStatus.reopened h = absurd (cc)

  mark_record_absent-RecordStep :
      (now : ℕ) (r : AttendanceRecord)
      → (is_finalized p.new_status && p.auto_mark_absent_for_unmarked) ≡ true
      → RecordStep r (mark_record_absent p.school_id p.session_id now r)
  mark_record_absent-RecordStep now r asks =
      elim (Bool-cases (is_unmarked_in p.school_id p.session_id r)) [
        | inl marks ↦ inl (
            rw marks (record {
              asked = (final_lem p.new_status (ground (arith, asks)), ground (arith, asks));
              of_session = (ground (arith, marks), ground (arith, marks));
              was_unmarked = unmarked_lem r.status (ground (arith, marks));
              is_absent = refl;
              same_id = refl;
              same_session = refl;
              same_student = refl;
              same_capture = refl;
            }))
        | inr keeps ↦ inr (rw keeps refl)
      ]

  records_after-RecordStep :
      (now : ℕ) (rs : List AttendanceRecord) → Zip RecordStep rs (records_after p now rs)
  records_after-RecordStep now rs =
      elim (Bool-cases (is_finalized p.new_status && p.auto_mark_absent_for_unmarked)) [
        | inl asks ↦ rw asks (
            Zip-map RecordStep (mark_record_absent p.school_id p.session_id now) rs
              (λ r. mark_record_absent-RecordStep now r asks))
        | inr not_asked ↦ rw not_asked (Zip-same RecordStep rs (λ r. inr refl))
      ]

  pub record Updated (db db' : Database) : Type 0 where
    pub sessions : Zip SessionStep db.sessions db'.sessions
    pub records : Zip RecordStep db.records db'.records

-- An update that succeeds gives its session the new status and leaves every other session as it is.
-- It turns a record absent only where the call finalises, asks for it, and the record is an unmarked
-- one of the session; every other record stays as it is.
pub update_session_status-Updated :
    (clock : Clock) (dir : Directory) (p : StatusParams) (db db' : Database)
    → update_session_status clock dir p db ≡ returns db'
    → Updated p db db'
update_session_status-Updated clock dir p db db' h =
    let u = update_session_status-Stored clock dir p db db' h in
    record {
      sessions = subst (Zip (SessionStep p) db.sessions) (sym u.sessions) (
          Zip-map (SessionStep p) (set_status p clock.now) db.sessions
            (set_status-SessionStep p clock.now));
      records =
          subst (Zip (RecordStep p) db.records) (sym u.records)
            (records_after-RecordStep p clock.now db.records);
    }
