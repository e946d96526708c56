-- ===== src/Attendance/Unique.antt =====
-- One record for each student of a session, and identifiers that are used once.
use offline_qr_school_attend.Common.{
  ℕ, suc, ◌≤◌, ◌<◌, ◌≡◌, refl, Bool, false, ◌||◌, List, [], ◌∷◌, ◌++◌, map, anyb, elem, arith, All,
}
use offline_qr_school_attend.Directory.{Enrollment}
use offline_qr_school_attend.Attendance.Sessions.{
  unmarked_records, after_rows, has_repeats, enrolled_student,
}
use offline_qr_school_attend.Store.{Session, AttendanceRecord, Database, is_record_of}

-- The key of a record is taken in a list.
abbrev pub is_taken : ℕ → ℕ → List AttendanceRecord → Bool
is_taken session student records = anyb (is_record_of session student) records

-- No session holds two records of a student.
abbrev pub HasUniqueRecords : List AttendanceRecord → Type 0
HasUniqueRecords [] = Unit
HasUniqueRecords (r ∷ rs) =
    (is_taken r.attendance_session_id r.student_id rs ≡ false) × HasUniqueRecords rs

-- The records and the sessions have identifiers below the next one.
abbrev pub IsBelow : ℕ → AttendanceRecord → Type 0
IsBelow n r = (r.id < n) × (r.attendance_session_id < n)

abbrev pub IsSessionBelow : ℕ → Session → Type 0
IsSessionBelow n s = s.id < n

pub record WellFormed (db : Database) : Type 0 where
  pub unique : HasUniqueRecords db.records
  pub records_below : All (IsBelow db.next_id) db.records
  pub sessions_below : All (IsSessionBelow db.next_id) db.sessions

append-taken :
    (a b : ℕ) (xs ys : List AttendanceRecord)
    → is_taken a b (xs ++ ys) ≡ (is_taken a b xs || is_taken a b ys)
append-taken a b [] ys = refl
append-taken a b (x ∷ xs) ys = ground (arith, append-taken a b xs ys)

-- Two lists whose keys do not meet.
abbrev pub Apart : List AttendanceRecord → List AttendanceRecord → Type 0
Apart [] ys = Unit
Apart (x ∷ xs) ys = (is_taken x.attendance_session_id x.student_id ys ≡ false) × Apart xs ys

pub append-HasUniqueRecords :
    (xs ys : List AttendanceRecord)
    → HasUniqueRecords xs
    → HasUniqueRecords ys
    → Apart xs ys
    → HasUniqueRecords (xs ++ ys)
append-HasUniqueRecords [] ys hx hy h = hy
append-HasUniqueRecords (x ∷ xs) ys (p, hx) hy (q, h) = (
  ground (arith, append-taken x.attendance_session_id x.student_id xs ys, p, q),
  append-HasUniqueRecords xs ys hx hy h,
)

pub not_taken_Apart :
    (r : AttendanceRecord) (xs : List AttendanceRecord)
    → is_taken r.attendance_session_id r.student_id xs ≡ false
    → Apart xs (r ∷ [])
not_taken_Apart r [] h = tt
not_taken_Apart r (x ∷ xs) h = (ground (arith, h), not_taken_Apart r xs (ground (arith, h)))

-- The records of a session that is new have a key that no older record has.
below_not_taken :
    (n student : ℕ) (xs : List AttendanceRecord)
    → All (IsBelow n) xs
    → is_taken n student xs ≡ false
below_not_taken n student [] h = refl
below_not_taken n student (x ∷ xs) (p, h) = ground (arith, below_not_taken n student xs h)

abbrev pub IsOfSession : ℕ → AttendanceRecord → Type 0
IsOfSession n r = r.attendance_session_id ≡ n

below_not_in :
    (a b n : ℕ) (ys : List AttendanceRecord)
    → a < n
    → All (IsOfSession n) ys
    → is_taken a b ys ≡ false
below_not_in a b n [] h k = refl
below_not_in a b n (y ∷ ys) h (p, k) = ground (arith, below_not_in a b n ys h k)

pub below_Apart :
    (n : ℕ) (xs ys : List AttendanceRecord)
    → All (IsBelow n) xs
    → All (IsOfSession n) ys
    → Apart xs ys
below_Apart n [] ys h k = tt
below_Apart n (x ∷ xs) ys ((p, q), h) k =
    (below_not_in x.attendance_session_id x.student_id n ys q k, below_Apart n xs ys h k)

pub unmarked_records-IsOfSession :
    (school session now id : ℕ) (es : List Enrollment)
    → All (IsOfSession session) (unmarked_records school session now id es)
unfolding unmarked_records
unmarked_records-IsOfSession school session now id [] = tt
unmarked_records-IsOfSession school session now id (e ∷ es) =
    (refl, unmarked_records-IsOfSession school session now (suc id) es)

unmarked_records-taken :
    (school session now id student : ℕ) (es : List Enrollment)
    → elem student (map enrolled_student es) ≡ false
    → is_taken session student (unmarked_records school session now id es) ≡ false
unfolding unmarked_records
unmarked_records-taken school session now id student [] h = refl
unmarked_records-taken school session now id student (e ∷ es) h =
    ground (arith, h, unmarked_records-taken school session now (suc id) student es)

pub unmarked_records-HasUniqueRecords :
    (school session now id : ℕ) (es : List Enrollment)
    → has_repeats (map enrolled_student es) ≡ false
    → HasUniqueRecords (unmarked_records school session now id es)
unfolding unmarked_records
unmarked_records-HasUniqueRecords school session now id [] h = tt
unmarked_records-HasUniqueRecords school session now id (e ∷ es) h = (
  unmarked_records-taken school session now (suc id) e.student_id es (ground (arith, h)),
  unmarked_records-HasUniqueRecords school session now (suc id) es (ground (arith, h)),
)

pub after_rows_le : (id : ℕ) (es : List Enrollment) → id ≤ after_rows id es
unfolding after_rows
after_rows_le id [] = omega arith
after_rows_le id (e ∷ es) = omega (arith, after_rows_le (suc id) es)

pub unmarked_records-IsBelow :
    (school session now id : ℕ) (es : List Enrollment)
    → session < id
    → All (IsBelow (after_rows id es)) (unmarked_records school session now id es)
unfolding unmarked_records after_rows
unmarked_records-IsBelow school session now id [] h = tt
unmarked_records-IsBelow school session now id (e ∷ es) h = (
  (omega (arith, after_rows_le (suc id) es), omega (arith, h, after_rows_le (suc id) es)),
  unmarked_records-IsBelow school session now (suc id) es (omega (arith, h)),
)

pub IsBelow-weaken :
    (m n : ℕ) (xs : List AttendanceRecord) → m ≤ n → All (IsBelow m) xs → All (IsBelow n) xs
IsBelow-weaken m n [] h k = tt
IsBelow-weaken m n (x ∷ xs) h ((p, q), k) =
    ((omega (arith, h, p), omega (arith, h, q)), IsBelow-weaken m n xs h k)

pub IsSessionBelow-weaken :
    (m n : ℕ) (xs : List Session) → m ≤ n → All (IsSessionBelow m) xs → All (IsSessionBelow n) xs
IsSessionBelow-weaken m n [] h k = tt
IsSessionBelow-weaken m n (x ∷ xs) h (p, k) =
    (omega (arith, h, p), IsSessionBelow-weaken m n xs h k)
