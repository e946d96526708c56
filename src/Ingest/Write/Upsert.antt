-- ===== src/Ingest/Write/Upsert.antt =====
-- Steps B and C of src/services/rfid/ingest/write.ts: one record for each student, and the upsert
-- that leaves manual marks alone.
use offline_qr_school_attend.Common.{
  ℕ, suc, ◌+◌, ◌*◌, ◌^◌, Bool, true, false, ◌&&◌, not, Option, none, some, List, [], ◌∷◌, ◌++◌,
  ◌==◌, ltb, anyb, find?, if◌then◌else◌,
}
use offline_qr_school_attend.Common.Maps.{Map, lookup, insert}
use offline_qr_school_attend.Ingest.Types.{Decision, is_accepted, IngestContext, Outcome}
use offline_qr_school_attend.Store.{
  AttendanceStatus, CaptureMethod, Source, AttendanceRecord, Database, record_at, is_record_of,
}
use offline_qr_school_attend.Ingest.Write.Sessions.{section_of, student_of, seen_at, with_decision}

-- Step B: `!cur || o.readAt < cur.readAt`.
abbrev pub is_earlier : Outcome → Option Outcome → Bool
is_earlier o none = true
is_earlier o (some cur) = ltb (seen_at o) (seen_at cur)

abbrev pub wins : Outcome → Map Outcome → Bool
wins o by_student = is_earlier o (lookup (student_of o) by_student)

abbrev pub next_by_student : Outcome → Map Outcome → Map Outcome
next_by_student o by_student =
    if is_accepted o.decision && wins o by_student
    then insert (student_of o) o by_student
    else by_student

abbrev pub next_outcome : Outcome → Map Outcome → Outcome
next_outcome o by_student =
    if is_accepted o.decision && not (wins o by_student)
    then with_decision Decision.already_present o
    else o

-- The loop over the accepted outcomes.
unfoldable pub choose : Map Outcome → List Outcome → Map Outcome × List Outcome
choose by_student [] = (by_student, [])
choose by_student (o ∷ os) =
    let (chosen, rest) = choose (next_by_student o by_student) os in
    (chosen, next_outcome o by_student ∷ rest)

-- One row of the upsert: the outcome and the session that it is recorded in.
pub record UpsertRow : Type 0 where
  pub o : Outcome
  pub session_id : ℕ

abbrev pub collect_one : Option ℕ → Outcome → Option (List UpsertRow) → Option (List UpsertRow)
collect_one none o rest = none
collect_one (some id) o none = none
collect_one (some id) o (some rest) = some (record { o = o; session_id = id } ∷ rest)

-- The `map` that builds the rows; `none` is the exception INGEST_INVARIANT.
unfoldable pub collect : Map ℕ → List Outcome → Option (List UpsertRow)
collect ids [] = some []
collect ids (o ∷ os) = collect_one (lookup (section_of o) ids) o (collect ids os)

-- Rows are locked in the order of the text `sessionId + studentId`. Both are UUIDs, texts of one
-- length in the order of their 128-bit numbers.
abbrev pub lock_key : UpsertRow → ℕ
lock_key u = u.session_id * 2 ^ 128 + student_of u.o

pub record Returned : Type 0 where
  pub student_id : ℕ
  pub record_id : ℕ
  pub inserted : Bool

-- `source <> 'MANUAL' AND capture_method <> 'MANUAL'`; a comparison with NULL does not hold.
abbrev pub is_rfid_source : Option Source → Bool
is_rfid_source (some Source.rfid) = true
is_rfid_source _ = false

abbrev pub is_manual_capture : CaptureMethod → Bool
is_manual_capture CaptureMethod.manual = true
is_manual_capture _ = false

abbrev pub is_updatable : AttendanceRecord → Bool
is_updatable r = is_rfid_source r.source && not (is_manual_capture r.capture_method)

-- `GREATEST(last_seen_at, excluded.last_seen_at)`, which passes over NULL.
abbrev pub greatest : Option ℕ → ℕ → ℕ
greatest none b = b
greatest (some a) b = if ltb a b then b else a

abbrev pub new_record : IngestContext → ℕ → ℕ → UpsertRow → AttendanceRecord
new_record ctx now id u = record {
  id = id;
  school_id = ctx.school_id;
  attendance_session_id = u.session_id;
  student_id = student_of u.o;
  status = AttendanceStatus.present;
  first_scanned_at = some (seen_at u.o);
  last_updated_at = now;
  capture_method = CaptureMethod.rfid_gate;
  source = some Source.rfid;
  first_seen_at = some (seen_at u.o);
  last_seen_at = some (seen_at u.o);
  review_reason = u.o.review_flag;
}

abbrev pub seen_again : ℕ → ℕ → AttendanceRecord → AttendanceRecord
seen_again now at r =
    if is_updatable r
    then record r { last_seen_at = some (greatest r.last_seen_at at); last_updated_at = now }
    else r

-- `set … where` on the row that conflicts.
abbrev pub update_record :
    (AttendanceRecord → AttendanceRecord)
    → (AttendanceRecord → Bool)
    → List AttendanceRecord
    → List AttendanceRecord
update_record f p [] = []
update_record f p (r ∷ rs) = if p r then f r ∷ rs else r ∷ update_record f p rs

abbrev pub returned_of : AttendanceRecord → ℕ → List Returned → List Returned
returned_of r student rest =
    if is_updatable r
    then record { student_id = student; record_id = r.id; inserted = false } ∷ rest
    else rest

-- Step C, one row: insert, or update on conflict.
abbrev pub upsert_db : IngestContext → ℕ → UpsertRow → Option AttendanceRecord → Database → Database
upsert_db ctx now u none db = record db {
  next_id = suc db.next_id;
  records = db.records ++ new_record ctx now db.next_id u ∷ [];
}
upsert_db ctx now u (some r) db = record db {
  records =
      update_record (seen_again now (seen_at u.o)) (is_record_of u.session_id (student_of u.o))
        db.records;
}

abbrev pub upsert_returned : UpsertRow → Option AttendanceRecord → ℕ → List Returned → List Returned
upsert_returned u none id rest =
    record { student_id = student_of u.o; record_id = id; inserted = true } ∷ rest
upsert_returned u (some r) id rest = returned_of r (student_of u.o) rest

unfoldable pub upsert_all : IngestContext → ℕ → List UpsertRow → Database → Database × List Returned
upsert_all ctx now [] db = (db, [])
upsert_all ctx now (u ∷ us) db =
    let found = record_at u.session_id (student_of u.o) db.records in
    let (db', rest) = upsert_all ctx now us (upsert_db ctx now u found db) in
    (db', upsert_returned u found db.next_id rest)

abbrev pub returned_for : ℕ → List Returned → Option Returned
returned_for student returned = find? (λ (r : Returned). r.student_id == student) returned

abbrev pub decision_of : Option Returned → Decision
decision_of none = Decision.manual_override_preserved
decision_of (some r) = if r.inserted then Decision.accepted else Decision.already_present

-- `o.decision = …` for the rows of the upsert.
abbrev pub is_upserted : Outcome → List UpsertRow → Bool
is_upserted o us = anyb (λ (u : UpsertRow). u.o.index == o.index) us

abbrev pub report : List UpsertRow → List Returned → Outcome → Outcome
report us returned o =
    if is_upserted o us
    then with_decision (decision_of (returned_for (student_of o) returned)) o
    else o
