-- ===== src/Attendance/Kept.antt =====
-- Each statement and each operation of the attendance service keeps its tables well-formed.
use mathlib.Core.Path.{subst}
use offline_qr_school_attend.Common.{
  ℕ, suc, ◌≤◌, ◌<◌, ◌≡◌, refl, sym, ap, ◌∙◌, Bool, true, false, some, is_some, List, [], ◌∷◌, ◌++◌,
  map, find?, if◌then◌else◌, arith, All, inl, inr, Bool-cases,
}
use offline_qr_school_attend.Common.Result.{throws, returns}
use offline_qr_school_attend.Attendance.ScanLog.{guard_returns}
use offline_qr_school_attend.Attendance.Tables.{insert_record}
use offline_qr_school_attend.Attendance.Types.{Failure}
use offline_qr_school_attend.Attendance.Unique.{
  is_taken, HasUniqueRecords, IsBelow, IsSessionBelow, WellFormed, append-HasUniqueRecords,
  not_taken_Apart, IsBelow-weaken, IsSessionBelow-weaken,
}
use offline_qr_school_attend.Notifications.Absence.{is_session}
use offline_qr_school_attend.Store.{Session, AttendanceRecord, Database, is_record_of, record_at}

-- A change of a record that keeps what identifies it.
pub record SameKey (r r' : AttendanceRecord) : Type 0 where
  pub same_id : r'.id ≡ r.id
  pub same_session : r'.attendance_session_id ≡ r.attendance_session_id
  pub same_student : r'.student_id ≡ r.student_id

module _ (f : AttendanceRecord → AttendanceRecord)
    (keeps : (r : AttendanceRecord) → SameKey r (f r)) where
  map-taken : (a b : ℕ) (rs : List AttendanceRecord) → is_taken a b (map f rs) ≡ is_taken a b rs
  map-taken a b [] = refl
  map-taken a b (r ∷ rs) =
      let k = keeps r in ground (arith, map-taken a b rs, k.same_session, k.same_student)

  pub map-HasUniqueRecords :
      (rs : List AttendanceRecord) → HasUniqueRecords rs → HasUniqueRecords (map f rs)
  map-HasUniqueRecords [] h = tt
  map-HasUniqueRecords (r ∷ rs) (p, h) =
      let k = keeps r in
      (
        ap (λ a. is_taken a (f r).student_id (map f rs)) k.same_session
            ∙ ap (λ b. is_taken r.attendance_session_id b (map f rs)) k.same_student
            ∙ map-taken r.attendance_session_id r.student_id rs
            ∙ p,
        map-HasUniqueRecords rs h,
      )

  pub map-IsBelow :
      (n : ℕ) (rs : List AttendanceRecord) → All (IsBelow n) rs → All (IsBelow n) (map f rs)
  map-IsBelow n [] h = tt
  map-IsBelow n (r ∷ rs) ((p, q), h) =
      let k = keeps r in
      ((omega (arith, p, k.same_id), omega (arith, q, k.same_session)), map-IsBelow n rs h)

  -- A database whose records are changed so, and nothing else of what counts.
  pub map-WellFormed :
      (db db' : Database)
      → db'.sessions ≡ db.sessions
      → db'.records ≡ map f db.records
      → db.next_id ≤ db'.next_id
      → WellFormed db
      → WellFormed db'
  map-WellFormed db db' hs hr hn w = record {
    unique = subst HasUniqueRecords (sym hr) (map-HasUniqueRecords db.records w.unique);
    records_below = subst (All (IsBelow db'.next_id)) (sym hr) (
        map-IsBelow db'.next_id db.records
          (IsBelow-weaken db.next_id db'.next_id db.records hn w.records_below));
    sessions_below =
        subst (All (IsSessionBelow db'.next_id)) (sym hs)
          (IsSessionBelow-weaken db.next_id db'.next_id db.sessions hn w.sessions_below);
  }

pub carry-WellFormed :
    (db db' : Database)
    → db'.sessions ≡ db.sessions
    → db'.records ≡ db.records
    → db.next_id ≤ db'.next_id
    → WellFormed db
    → WellFormed db'
carry-WellFormed db db' hs hr hn w = record {
  unique = subst HasUniqueRecords (sym hr) w.unique;
  records_below =
      subst (All (IsBelow db'.next_id)) (sym hr)
        (IsBelow-weaken db.next_id db'.next_id db.records hn w.records_below);
  sessions_below =
      subst (All (IsSessionBelow db'.next_id)) (sym hs)
        (IsSessionBelow-weaken db.next_id db'.next_id db.sessions hn w.sessions_below);
}

record_at-taken :
    (a b : ℕ) (rs : List AttendanceRecord) → is_some (record_at a b rs) ≡ is_taken a b rs
record_at-taken a b [] = refl
record_at-taken a b (r ∷ rs) = elim (Bool-cases (is_record_of a b r)) [
  | inl same ↦ rw same refl
  | inr other ↦ rw other (record_at-taken a b rs)
]

append-IsBelow :
    (n : ℕ) (xs : List AttendanceRecord) (r : AttendanceRecord)
    → All (IsBelow n) xs
    → IsBelow n r
    → All (IsBelow n) (xs ++ r ∷ [])
append-IsBelow n [] r h p = (p, tt)
append-IsBelow n (x ∷ xs) r (q, h) p = (q, append-IsBelow n xs r h p)

-- The test that guards a step has failed where the step was taken.
guard_false :
    {A : Type 0} (b : Bool) (e : Failure) (x y : A)
    → (if b then throws e else returns x) ≡ returns y
    → b ≡ false
guard_false true e x y h = absurd (cc)
guard_false false e x y h = refl

pub insert_record-WellFormed :
    (row : ℕ → AttendanceRecord) (db db' : Database)
    → (row db.next_id).id ≡ db.next_id
    → (row db.next_id).attendance_session_id < db.next_id
    → insert_record row db ≡ returns db'
    → WellFormed db
    → WellFormed db'
insert_record-WellFormed row db db' hid hs h w =
    let r = row db.next_id in
    let taken = is_some (record_at r.attendance_session_id r.student_id db.records) in
    let after : Database = record db { next_id = suc db.next_id; records = db.records ++ r ∷ [] } in
    let e : db' ≡ after = guard_returns taken Failure.unique_violation after db' h in
    let free : is_taken r.attendance_session_id r.student_id db.records ≡ false =
      sym (record_at-taken r.attendance_session_id r.student_id db.records)
      ∙ guard_false taken Failure.unique_violation after db' h in
    subst WellFormed (sym e) (record {
      unique =
          append-HasUniqueRecords db.records (r ∷ []) w.unique (refl, tt)
            (not_taken_Apart r db.records free);
      records_below =
          append-IsBelow (suc db.next_id) db.records r
            (IsBelow-weaken db.next_id (suc db.next_id) db.records (omega arith) w.records_below)
            (omega (arith, hid), omega (arith, hs));
      sessions_below =
          IsSessionBelow-weaken db.next_id (suc db.next_id) db.sessions (omega arith)
            w.sessions_below;
    })

-- A session that is found is below the next identifier.
pub found_below :
    (school id n : ℕ) (ss : List Session) (s : Session)
    → find? (is_session school id) ss ≡ some s
    → All (IsSessionBelow n) ss
    → id < n
found_below school id n [] s h k = absurd (cc)
found_below school id n (x ∷ ss) s h (p, k) = elim (Bool-cases (is_session school id x)) [
  | inl same ↦ ground (arith, same, p)
  | inr other ↦
      found_below school id n ss s
        (subst (λ b. (if b then some x else find? (is_session school id) ss) ≡ some s) other h) k
]
