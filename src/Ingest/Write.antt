-- ===== src/Ingest/Write.antt =====
-- src/services/rfid/ingest/write.ts: the steps in order, and the log of scan events.
mod Sessions
mod Upsert
unfoldable pub use Sessions.*
unfoldable pub use Upsert.*
use Prim.Native.String.{String}
use text.Mathlib.Text.{◌==◌ as str_eq}
use offline_qr_school_attend.Common.{
  leb, ℕ, suc, ◌+◌, ◌*◌, ◌^◌, Bool, true, false, ◌&&◌, ◌||◌, not, Option, none, some, is_some, List,
  [], ◌∷◌, ◌++◌, map, ◌==◌, ltb, elem, filterb, anyb, find?, if◌then◌else◌, ◌≡◌,
}
use offline_qr_school_attend.Common.Maps.{Map, lookup, insert, has, values}
use offline_qr_school_attend.Common.Sort.{sort_by}
use offline_qr_school_attend.Ingest.Types.{
  Decision, in_duplicate_decisions, is_accepted, NormalizedRead, SessionStatus, is_finalized,
  SessionRow, IngestContext, Outcome, ReviewFlag,
}
use offline_qr_school_attend.Store.{
  AttendanceStatus, CaptureMethod, Source, Session, AttendanceRecord, EventType, AttendanceEvent,
  ScanEvent, Database, record_at, is_record_of,
}

abbrev pub event_session : Map ℕ → Option Outcome → ℕ
event_session ids none = 0
event_session ids (some o) = or_zero (lookup (section_of o) ids)

abbrev pub event_time : ℕ → Option Outcome → ℕ
event_time now none = now
event_time now (some o) = seen_at o

-- The audit trail of a new presence.
abbrev pub presence_event :
    IngestContext → ℕ → ℕ → Map ℕ → Map Outcome → ℕ → Returned → AttendanceEvent
presence_event ctx reader now ids by_student event_id r =
    let outcome = lookup r.student_id by_student in
    record {
      school_id = ctx.school_id;
      client_event_id = event_id;
      attendance_session_id = event_session ids outcome;
      student_id = r.student_id;
      event_type = EventType.rfid_present;
      status_value = AttendanceStatus.present;
      client_timestamp = event_time now outcome;
      actor_id = none;
      actor_reader_id = some reader;
    }

-- One event for each row that was inserted.
unfoldable pub log_presence :
    IngestContext → ℕ → ℕ → Map ℕ → Map Outcome → List Returned → Database → Database
log_presence ctx reader now ids by_student [] db = db
log_presence ctx reader now ids by_student (r ∷ rs) db =
    log_presence ctx reader now ids by_student rs (
      if r.inserted
      then record db {
        next_id = suc db.next_id;
        events = db.events ++ presence_event ctx reader now ids by_student db.next_id r ∷ [];
      }
      else db)

-- `o.read && !DUPLICATE_DECISIONS.has(o.decision)`
unfoldable pub is_loggable : Outcome → Bool
unfolding in_duplicate_decisions
is_loggable o = is_some o.read && not (in_duplicate_decisions o.decision)

abbrev pub scan_session : Map ℕ → Option ℕ → Option ℕ
scan_session ids none = none
scan_session ids (some section) = lookup section ids

abbrev pub scan_event : IngestContext → ℕ → Outcome → NormalizedRead → ScanEvent
scan_event ctx reader o read = record {
  school_id = ctx.school_id;
  reader_id = reader;
  credential_id = o.credential_id;
  student_id = o.student_id;
  attendance_session_id = scan_session (session_ids ctx.session_by_section) o.class_section_id;
  idempotency_key = read.idempotency_key;
  epc_digest = read.epc_digest;
  antenna_port = read.antenna;
  peak_rssi = read.rssi;
  scan_timestamp = read.read_at;
  decision = o.decision;
  review_flag = o.review_flag;
}

abbrev pub has_key : ℕ → ScanEvent → Bool
has_key key e = e.idempotency_key == key

-- `onConflictDoNothing` on the idempotency key.
unfoldable pub insert_scan : ScanEvent → List ScanEvent → List ScanEvent
insert_scan e events = if anyb (has_key e.idempotency_key) events then events else events ++ e ∷ []

abbrev pub log_scan :
    IngestContext → ℕ → Outcome → Option NormalizedRead → List ScanEvent → List ScanEvent
log_scan ctx reader o none events = events
log_scan ctx reader o (some read) events = insert_scan (scan_event ctx reader o read) events

abbrev pub log_one : IngestContext → ℕ → Outcome → List ScanEvent → List ScanEvent
log_one ctx reader o events = if is_loggable o then log_scan ctx reader o o.read events else events

unfoldable pub log_scans : IngestContext → ℕ → List Outcome → List ScanEvent → List ScanEvent
unfolding insert_scan is_loggable
log_scans ctx reader [] events = events
log_scans ctx reader (o ∷ os) events = log_scans ctx reader os (log_one ctx reader o events)

-- A value of the integer columns `antenna_port` and `peak_rssi`.
abbrev pub fits_integer : Option ℕ → Bool
fits_integer none = true
fits_integer (some n) = ltb n 2_147_483_648

-- An instant up to the end of the year 9999: a later one is printed with a sign before its year, which
-- the database does not read.
abbrev pub fits_timestamp : ℕ → Bool
fits_timestamp ms = leb ms 253_402_300_799_999

abbrev pub fits_columns : Option NormalizedRead → Bool
fits_columns none = true
fits_columns (some read) =
    fits_integer read.antenna && (fits_integer read.rssi && fits_timestamp read.read_at)

-- An outcome to be logged with a value that the database refuses, and with it the whole `insert`.
unfoldable pub is_misfit : Outcome → Bool
unfolding is_loggable
is_misfit o = is_loggable o && not (fits_columns o.read)

abbrev pub logged_db : IngestContext → ℕ → List Outcome → Database → Database
logged_db ctx reader outcomes db = record db {
  scan_events = log_scans ctx reader outcomes db.scan_events;
}

-- Step D: everything but duplicates; `none` is the error of the database.
unfoldable pub write_scan_events : IngestContext → ℕ → List Outcome → Database → Option Database
unfolding log_scans is_misfit
write_scan_events ctx reader outcomes db =
    if anyb is_misfit outcomes then none else some (logged_db ctx reader outcomes db)

abbrev pub with_log : List Outcome → Option Database → Option (Database × List Outcome)
with_log outcomes none = none
with_log outcomes (some db) = some (db, outcomes)

-- Step C with its report and its audit trail.
unfoldable pub record_presence :
    IngestContext
    → ℕ
    → ℕ
    → Map ℕ
    → Map Outcome
    → List Outcome
    → List UpsertRow
    → Database
    → Database × List Outcome
unfolding upsert_all log_presence sort_by
record_presence ctx reader now ids by_student outcomes rows db =
    let us = sort_by lock_key rows in
    let (db', returned) = upsert_all ctx now us db in
    (log_presence ctx reader now ids by_student returned db', map (report us returned) outcomes)

abbrev pub finish_write :
    IngestContext
    → ℕ
    → ℕ
    → Map ℕ
    → Map Outcome
    → List Outcome
    → Option (List UpsertRow)
    → Database
    → Option (Database × List Outcome)
finish_write ctx reader now ids by_student outcomes none db = none
finish_write ctx reader now ids by_student outcomes (some rows) db =
    let (db', reported) = record_presence ctx reader now ids by_student outcomes rows db in
    with_log reported (write_scan_events ctx reader reported db')

-- What steps A and B leave for step C.
pub record Staged : Type 0 where
  pub db : Database
  pub ids : Map ℕ
  pub by_student : Map Outcome
  pub chosen : List Outcome

unfoldable pub stage : IngestContext → List Outcome → Database → Staged
unfolding insert_sessions settle_sessions choose
stage ctx outcomes db =
    let db' = insert_sessions ctx (sort_by (λ n. n) (missing_sections outcomes)) db in
    let (ids, settled) = settle_sessions ctx outcomes db' in
    let (by_student, chosen) = choose [] settled in
    record { db = db'; ids = ids; by_student = by_student; chosen = chosen }

-- `writeOutcomes`; `none` is the exception INGEST_INVARIANT, or the error of the database in step D.
unfoldable pub write_outcomes :
    IngestContext → ℕ → ℕ → List Outcome → Database → Option (Database × List Outcome)
unfolding stage collect record_presence write_scan_events
write_outcomes ctx reader now outcomes db =
    let s = stage ctx outcomes db in
    finish_write ctx reader now s.ids s.by_student s.chosen (collect s.ids (values s.by_student))
      s.db
