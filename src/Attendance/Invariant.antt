-- ===== src/Attendance/Invariant.antt =====
-- The scans keep the tables well-formed.
use mathlib.Core.Path.{subst}
use offline_qr_school_attend.Common.{
  ℕ, ◌<◌, ◌≡◌, refl, sym, ap, Bool, ◌&&◌, not, Option, none, some, List, [], ◌∷◌, ◌++◌, ◌==◌, find?,
  if◌then◌else◌, arith, inl, inr, Bool-cases,
}
use offline_qr_school_attend.Common.Result.{returns, bind-returns, require-returns}
use offline_qr_school_attend.Directory.{Directory}
use offline_qr_school_attend.Ingest.Types.{is_finalized}
use offline_qr_school_attend.Notifications.Jobs.{on_attendance_corrected}
use offline_qr_school_attend.Attendance.Kept.{
  SameKey, map-WellFormed, carry-WellFormed, insert_record-WellFormed, found_below,
}
use offline_qr_school_attend.Attendance.Scan.{
  Scanned, write_mark, log_duplicate, mark_existing, mark_new, update_mark, marked_record, scan_log,
  scan_event_type, scan_record, is_present_or_late, is_present, process_qr_code, scan_once,
  scan_target, record_of_student, is_same_event,
}
use offline_qr_school_attend.Attendance.Unchanged.{on_attendance_corrected-SameBut}
use offline_qr_school_attend.Attendance.ScanLog.{
  insert_event-returns, insert_event_directly-inserts, returns-injective,
}
use offline_qr_school_attend.Attendance.ScanOnce.{process_qr_code-Entered}
use offline_qr_school_attend.Attendance.Tables.{
  insert_event, insert_event_directly, insert_record, update_by_id, same_status,
}
use offline_qr_school_attend.Attendance.Types.{ScanParams}
use offline_qr_school_attend.Attendance.Unique.{WellFormed}
use offline_qr_school_attend.Store.{
  AttendanceStatus, AttendanceRecord, AttendanceEvent, EventType, Database,
}

pub insert_event-WellFormed :
    (e : AttendanceEvent) (db db' : Database)
    → insert_event e db ≡ returns db'
    → WellFormed db
    → WellFormed db'
insert_event-WellFormed e db db' h w =
    subst WellFormed (sym (insert_event-returns e db db' h))
      (carry-WellFormed db (record db { events = db.events ++ e ∷ [] }) refl refl (omega arith) w)

update_by_id-SameKey :
    (id : ℕ) (f : AttendanceRecord → AttendanceRecord)
    → ((r : AttendanceRecord) → SameKey r (f r))
    → (r : AttendanceRecord) → SameKey r (if r.id == id then f r else r)
update_by_id-SameKey id f h r = elim (Bool-cases (r.id == id)) [
  | inl same ↦ rw same (h r)
  | inr other ↦ rw other (record { same_id = refl; same_session = refl; same_student = refl })
]

pub update_by_id-WellFormed :
    (id : ℕ) (f : AttendanceRecord → AttendanceRecord) (db : Database)
    → ((r : AttendanceRecord) → SameKey r (f r))
    → WellFormed db
    → WellFormed (record db { records = update_by_id id f db.records })
update_by_id-WellFormed id f db h w =
    map-WellFormed (λ (r : AttendanceRecord). if r.id == id then f r else r)
      (update_by_id-SameKey id f h) db (record db { records = update_by_id id f db.records }) refl
      refl (omega arith) w

pub corrected-WellFormed :
    (now id school student : ℕ) (from to : AttendanceStatus) (db : Database)
    → WellFormed db
    → WellFormed (on_attendance_corrected now id school student from to db)
corrected-WellFormed now id school student from to db w =
    let b = on_attendance_corrected-SameBut now id school student from to db in
    carry-WellFormed db (on_attendance_corrected now id school student from to db) b.same_sessions
      b.same_records b.later w

module _ (p : ScanParams) (now student : ℕ) where
  update_mark-WellFormed :
      (r : AttendanceRecord) (db : Database)
      → WellFormed db
      → WellFormed (update_mark p now student r db)
  update_mark-WellFormed r db w =
      let marked =
        update_by_id-WellFormed r.id (marked_record p now) db
          (λ x. record { same_id = refl; same_session = refl; same_student = refl }) w in
      elim (Bool-cases (same_status r.status p.status_value)) [
        | inl same ↦ rw same marked
        | inr other ↦ rw other (
            corrected-WellFormed now r.id p.school_id student r.status p.status_value
              (record db { records = update_by_id r.id (marked_record p now) db.records }) marked)
      ]

  mark_existing-WellFormed :
      (r : AttendanceRecord) (db : Database) (s : Scanned)
      → mark_existing p now student r db ≡ returns s
      → WellFormed db
      → WellFormed s.db
  mark_existing-WellFormed r db s h w =
      let e = scan_log p now student (scan_event_type p.source) p.status_value in
      let (logged, inserted, rest) = bind-returns (insert_event e db) _ _ h in
      subst (λ (x : Scanned). WellFormed x.db) (returns-injective _ _ rest)
        (update_mark-WellFormed r logged (insert_event-WellFormed e db logged inserted w))

  log_duplicate-WellFormed :
      (r : AttendanceRecord) (db : Database) (s : Scanned)
      → log_duplicate p now student r db ≡ returns s
      → WellFormed db
      → WellFormed s.db
  log_duplicate-WellFormed r db s h w =
      let e = scan_log p now student EventType.duplicate_qr_scanned r.status in
      let (logged, direct, rest) = bind-returns (insert_event_directly e db) _ _ h in
      let inserted = insert_event_directly-inserts e db logged direct in
      subst (λ (x : Scanned). WellFormed x.db) (returns-injective _ _ rest)
        (insert_event-WellFormed e db logged inserted w)

  mark_new-WellFormed :
      (db : Database) (s : Scanned)
      → p.session_id < db.next_id
      → mark_new p now student db ≡ returns s
      → WellFormed db
      → WellFormed s.db
  mark_new-WellFormed db s below h w =
      let e = scan_log p now student (scan_event_type p.source) p.status_value in
      let (logged, inserted, h1) = bind-returns (insert_event e db) _ _ h in
      let (marked, stored, rest) =
        bind-returns (insert_record (scan_record p now student) logged) _ _ h1 in
      let same = ap (λ (x : Database). x.next_id) (insert_event-returns e db logged inserted) in
      subst (λ (x : Scanned). WellFormed x.db) (returns-injective _ _ rest)
        (insert_record-WellFormed (scan_record p now student) logged marked refl
          (omega (arith, below, same)) stored (insert_event-WellFormed e db logged inserted w))

  write_mark-WellFormed :
      (o : Option AttendanceRecord) (db : Database) (s : Scanned)
      → p.session_id < db.next_id
      → write_mark p now student o db ≡ returns s
      → WellFormed db
      → WellFormed s.db
  write_mark-WellFormed none db s below h w = mark_new-WellFormed db s below h w
  write_mark-WellFormed (some r) db s below h w =
      elim (Bool-cases (is_present_or_late r.status && is_present p.status_value)) [
        | inl again ↦
            log_duplicate-WellFormed r db s
              (subst
                (λ b.
                  (if b then log_duplicate p now student r db else mark_existing p now student r db)
                  ≡ returns s)
                again h)
              w
        | inr fresh ↦
            mark_existing-WellFormed r db s
              (subst
                (λ b.
                  (if b then log_duplicate p now student r db else mark_existing p now student r db)
                  ≡ returns s)
                fresh h)
              w
      ]

module _ (sha256 : List ℕ → ℕ) (dir : Directory) (p : ScanParams) (now : ℕ) where
  scan_once-WellFormed :
      (locked : Bool) (o : Option AttendanceEvent) (db : Database) (s : Scanned)
      → p.session_id < db.next_id
      → scan_once sha256 dir p now locked o db ≡ returns s
      → WellFormed db
      → WellFormed s.db
  scan_once-WellFormed locked (some e) db s below h w =
      subst (λ (x : Scanned). WellFormed x.db) (returns-injective _ _ h) w
  scan_once-WellFormed locked none db s below h w =
      let (unlocked, h1) = require-returns (not locked) _ _ _ h in
      let (student, target, h2) = bind-returns (scan_target sha256 dir p db) _ _ h1 in
      write_mark-WellFormed p now student (record_of_student p student db) db s below h2 w

  -- `processQRCode` keeps the tables well-formed.
  pub process_qr_code-WellFormed :
      (db : Database) (s : Scanned)
      → process_qr_code sha256 dir p now db ≡ returns s
      → WellFormed db
      → WellFormed s.db
  process_qr_code-WellFormed db s h w =
      let c = process_qr_code-Entered sha256 dir p now db s h in
      scan_once-WellFormed (is_finalized c.session.status) (find? (is_same_event p) db.events) db s
        (found_below p.school_id p.session_id db.next_id db.sessions c.session c.found
          w.sessions_below)
        c.once w
