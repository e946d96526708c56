-- ===== src/Attendance/Reachable.antt =====
-- The databases that the attendance service can reach, by any sequence of calls.
use mathlib.Core.Path.{subst}
use offline_qr_school_attend.Common.{
  ℕ, suc, ◌<◌, ◌≡◌, refl, sym, false, ◌&&◌, not, Option, none, some, List, [], ◌∷◌, ◌++◌, map, All,
  find?, arith, inl, inr, Bool-cases,
}
use offline_qr_school_attend.Common.Result.{returns, require-returns}
use offline_qr_school_attend.Directory.{Directory, Enrollment}
use offline_qr_school_attend.Ingest.Types.{is_finalized}
use offline_qr_school_attend.Notifications.Absence.{Clock, is_session}
use offline_qr_school_attend.Attendance.Access.{may_act}
use offline_qr_school_attend.Attendance.Invariant.{process_qr_code-WellFormed}
use offline_qr_school_attend.Attendance.Kept.{SameKey, map-HasUniqueRecords, map-IsBelow}
use offline_qr_school_attend.Attendance.Manual.{manual_status_update}
use offline_qr_school_attend.Attendance.ManualMarks.{manual_status_update-WellFormed}
use offline_qr_school_attend.Attendance.Scan.{Scanned, process_qr_code}
use offline_qr_school_attend.Attendance.ScanLog.{returns-injective}
use offline_qr_school_attend.Attendance.Sessions.{
  CreatedSession, create_attendance_session, create_or_return, active_enrollments, has_repeats,
  enrolled_student, insert_new_session, after_rows, unmarked_records, open_session, is_session_of,
}
use offline_qr_school_attend.Attendance.Status.{
  update_session_status, mark_record_absent, is_unmarked_in, set_status,
}
use offline_qr_school_attend.Attendance.StatusTables.{records_after}
use offline_qr_school_attend.Attendance.Transitions.{update_session_status-Stored}
use offline_qr_school_attend.Attendance.Types.{
  ScanParams, ManualParams, SessionParams, StatusParams,
}
use offline_qr_school_attend.Attendance.Unique.{
  WellFormed, HasUniqueRecords, IsBelow, IsSessionBelow, append-HasUniqueRecords, below_Apart,
  unmarked_records-IsOfSession, unmarked_records-HasUniqueRecords, after_rows_le,
  unmarked_records-IsBelow, IsBelow-weaken, IsSessionBelow-weaken,
}
use offline_qr_school_attend.Store.{AttendanceRecord, Session, Database}

mark_record_absent-SameKey :
    (school session now : ℕ) (r : AttendanceRecord)
    → SameKey r (mark_record_absent school session now r)
mark_record_absent-SameKey school session now r =
    elim (Bool-cases (is_unmarked_in school session r)) [
      | inl marks ↦ rw marks (record { same_id = refl; same_session = refl; same_student = refl })
      | inr keeps ↦ rw keeps (record { same_id = refl; same_session = refl; same_student = refl })
    ]

set_status-id : (p : StatusParams) (now : ℕ) (s : Session) → (set_status p now s).id ≡ s.id
set_status-id p now s = elim (Bool-cases (is_session p.school_id p.session_id s)) [
  | inl same ↦ elim (Bool-cases (is_finalized p.new_status)) [
    | inl final ↦ rw same (rw final refl)
    | inr other ↦ rw same (rw other refl)
  ]
  | inr other ↦ rw other refl
]

set_status-IsSessionBelow :
    (p : StatusParams) (now n : ℕ) (ss : List Session)
    → All (IsSessionBelow n) ss
    → All (IsSessionBelow n) (map (set_status p now) ss)
set_status-IsSessionBelow p now n [] h = tt
set_status-IsSessionBelow p now n (s ∷ ss) (q, h) =
    (omega (arith, q, set_status-id p now s), set_status-IsSessionBelow p now n ss h)

update_session_status-WellFormed :
    (clock : Clock) (dir : Directory) (p : StatusParams) (db db' : Database)
    → update_session_status clock dir p db ≡ returns db'
    → WellFormed db
    → WellFormed db'
update_session_status-WellFormed clock dir p db db' h w =
    let u = update_session_status-Stored clock dir p db db' h in
    let f = mark_record_absent p.school_id p.session_id clock.now in
    let key = mark_record_absent-SameKey p.school_id p.session_id clock.now in
    let unique : HasUniqueRecords (records_after p clock.now db.records) =
      elim (Bool-cases (is_finalized p.new_status && p.auto_mark_absent_for_unmarked)) [
        | inl asks ↦ rw asks (map-HasUniqueRecords f key db.records w.unique)
        | inr not_asked ↦ rw not_asked w.unique
      ] in
    let below : All (IsBelow db.next_id) (records_after p clock.now db.records) =
      elim (Bool-cases (is_finalized p.new_status && p.auto_mark_absent_for_unmarked)) [
        | inl asks ↦ rw asks (map-IsBelow f key db.next_id db.records w.records_below)
        | inr not_asked ↦ rw not_asked w.records_below
      ] in
    record {
      unique = subst HasUniqueRecords (sym u.records) unique;
      records_below = subst (All (IsBelow db'.next_id)) (sym u.records) (
          IsBelow-weaken db.next_id db'.next_id (records_after p clock.now db.records) u.later
            below);
      sessions_below = subst (All (IsSessionBelow db'.next_id)) (sym u.sessions) (
          set_status-IsSessionBelow p clock.now db'.next_id db.sessions
            (IsSessionBelow-weaken db.next_id db'.next_id db.sessions u.later w.sessions_below));
    }

append-IsBelow :
    (n : ℕ) (xs ys : List AttendanceRecord)
    → All (IsBelow n) xs
    → All (IsBelow n) ys
    → All (IsBelow n) (xs ++ ys)
append-IsBelow n [] ys hx hy = hy
append-IsBelow n (x ∷ xs) ys (p, hx) hy = (p, append-IsBelow n xs ys hx hy)

append-IsSessionBelow :
    (n : ℕ) (xs : List Session) (s : Session)
    → All (IsSessionBelow n) xs
    → s.id < n
    → All (IsSessionBelow n) (xs ++ s ∷ [])
append-IsSessionBelow n [] s h p = (p, tt)
append-IsSessionBelow n (x ∷ xs) s (q, h) p = (q, append-IsSessionBelow n xs s h p)

pub insert_new_session-WellFormed :
    (p : SessionParams) (now : ℕ) (es : List Enrollment) (db : Database)
    → has_repeats (map enrolled_student es) ≡ false
    → WellFormed db
    → WellFormed (insert_new_session p now es db)
unfolding insert_new_session
insert_new_session-WellFormed p now es db h w =
    let id = db.next_id in
    let rows = unmarked_records p.school_id id now (suc id) es in
    let next = after_rows (suc id) es in
    let le = after_rows_le (suc id) es in
    record {
      unique =
          append-HasUniqueRecords db.records rows w.unique
            (unmarked_records-HasUniqueRecords p.school_id id now (suc id) es h)
            (below_Apart id db.records rows w.records_below
              (unmarked_records-IsOfSession p.school_id id now (suc id) es));
      records_below =
          append-IsBelow next db.records rows
            (IsBelow-weaken id next db.records (omega (arith, le)) w.records_below)
            (unmarked_records-IsBelow p.school_id id now (suc id) es (omega arith));
      sessions_below =
          append-IsSessionBelow next db.sessions (open_session p id)
            (IsSessionBelow-weaken id next db.sessions (omega (arith, le)) w.sessions_below)
            (omega (arith, le));
    }

create_or_return-WellFormed :
    (dir : Directory) (p : SessionParams) (now : ℕ) (o : Option Session) (db : Database)
    (c : CreatedSession)
    → create_or_return dir p now o db ≡ returns c
    → WellFormed db
    → WellFormed c.db
create_or_return-WellFormed dir p now (some s) db c h w =
    subst (λ (x : CreatedSession). WellFormed x.db) (returns-injective _ _ h) w
create_or_return-WellFormed dir p now none db c h w =
    let es = active_enrollments dir p.school_id p.class_section_id in
    let (distinct, h1) = require-returns (not (has_repeats (map enrolled_student es))) _ _ _ h in
    subst (λ (x : CreatedSession). WellFormed x.db) (returns-injective _ _ h1)
      (insert_new_session-WellFormed p now es db (ground (arith, distinct)) w)

create_attendance_session-WellFormed :
    (dir : Directory) (p : SessionParams) (now : ℕ) (db : Database) (c : CreatedSession)
    → create_attendance_session dir p now db ≡ returns c
    → WellFormed db
    → WellFormed c.db
unfolding create_attendance_session
create_attendance_session-WellFormed dir p now db c h w =
    let (access, h1) =
      require-returns (may_act dir p.school_id p.class_section_id p.actor_id p.user_role) _ _ _ h in
    create_or_return-WellFormed dir p now (find? (is_session_of p) db.sessions) db c h1 w

-- A call of the service, from the database before to the database after.
pub data Step (sha256 : List ℕ → ℕ) (db : Database) : Database → Type 0 where
  created :
      (dir : Directory) (p : SessionParams) (now : ℕ) (c : CreatedSession)
      → create_attendance_session dir p now db ≡ returns c
      → Step sha256 db c.db
  status_changed :
      (clock : Clock) (dir : Directory) (p : StatusParams) (db' : Database)
      → update_session_status clock dir p db ≡ returns db'
      → Step sha256 db db'
  scanned :
      (dir : Directory) (p : ScanParams) (now : ℕ) (s : Scanned)
      → process_qr_code sha256 dir p now db ≡ returns s
      → Step sha256 db s.db
  marked :
      (dir : Directory) (p : ManualParams) (now : ℕ)
      → Step sha256 db (manual_status_update dir p now db).db

-- Any number of calls, one after the other.
pub data Reachable (sha256 : List ℕ → ℕ) (start : Database) : Database → Type 0 where
  stay : Reachable sha256 start start
  next :
      (mid last : Database)
      → Reachable sha256 start mid
      → Step sha256 mid last
      → Reachable sha256 start last

Step-WellFormed :
    (sha256 : List ℕ → ℕ) (db db' : Database) → Step sha256 db db' → WellFormed db → WellFormed db'
Step-WellFormed sha256 db _ (created dir p now c h) w =
    create_attendance_session-WellFormed dir p now db c h w
Step-WellFormed sha256 db db' (status_changed clock dir p _ h) w =
    update_session_status-WellFormed clock dir p db db' h w
Step-WellFormed sha256 db _ (scanned dir p now s h) w =
    process_qr_code-WellFormed sha256 dir p now db s h w
Step-WellFormed sha256 db _ (marked dir p now) w = manual_status_update-WellFormed p now dir db w

-- In every database that calls of the service reach from a well-formed one, no session holds two
-- records of one student, and the identifiers of records and sessions are below the next one.
pub Reachable-WellFormed :
    (sha256 : List ℕ → ℕ) (start db : Database)
    → WellFormed start
    → Reachable sha256 start db
    → WellFormed db
Reachable-WellFormed sha256 start _ w stay = w
Reachable-WellFormed sha256 start _ w (next mid last before step) =
    Step-WellFormed sha256 mid last step (Reachable-WellFormed sha256 start mid w before)
