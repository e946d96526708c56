-- ===== src/Attendance/ScanLog.antt =====
-- What a scan that marks or repeats leaves of the sessions and of the event log.
use mathlib.Core.Path.{subst}
use offline_qr_school_attend.Common.{
  ℕ, suc, is_some, ◌≡◌, refl, sym, ap, ◌∙◌, Bool, true, false, ◌&&◌, Option, none, some, [], ◌∷◌,
  ◌++◌, anyb, if◌then◌else◌, arith, inl, inr, Bool-cases,
}
use offline_qr_school_attend.Common.Result.{Result, throws, returns, bind-returns}
use offline_qr_school_attend.Attendance.Scan.{
  is_same_event, write_mark, Scanned, log_duplicate, mark_existing, mark_new, update_mark,
  is_present_or_late, is_present, scan_log, scan_event_type, scan_record, marked_record,
}
use offline_qr_school_attend.Attendance.Tables.{
  has_event_id, insert_event, insert_event_directly, insert_record, same_status, update_by_id,
}
use offline_qr_school_attend.Attendance.Types.{Failure, ScanParams, ScanResponse}
use offline_qr_school_attend.Store.{
  AttendanceStatus, AttendanceRecord, AttendanceEvent, EventType, Database, record_at,
}
use offline_qr_school_attend.Attendance.Unchanged.{on_attendance_corrected-SameBut}

-- A call that logs its event at the end of the log.
pub record Logs (p : ScanParams) (student : ℕ) (db db' : Database) : Type 0 where
  pub sessions : db'.sessions ≡ db.sessions
  pub event : AttendanceEvent
  pub of_call : is_same_event p event ≡ true
  pub of_student : event.student_id ≡ student
  pub events : db'.events ≡ db.events ++ event ∷ []

scan_log-of_call :
    (p : ScanParams) (now student : ℕ) (t : EventType) (s : AttendanceStatus)
    → is_same_event p (scan_log p now student t s) ≡ true
scan_log-of_call p now student t s = ground arith

-- A test that throws where it holds.
pub guard_returns :
    {A : Type 0} (b : Bool) (e : Failure) (x y : A)
    → (if b then throws e else returns x) ≡ returns y
    → y ≡ x
guard_returns true e x y h = absurd (cc)
guard_returns false e x y h = cc

pub insert_event-returns :
    (e : AttendanceEvent) (db db' : Database)
    → insert_event e db ≡ returns db'
    → db' ≡ record db { events = db.events ++ e ∷ [] }
insert_event-returns e db db' h =
    guard_returns (anyb (has_event_id e.client_event_id) db.events) Failure.unique_violation
      (record db { events = db.events ++ e ∷ [] }) db' h

pub insert_event_directly-inserts :
    (e : AttendanceEvent) (db db' : Database)
    → insert_event_directly e db ≡ returns db'
    → insert_event e db ≡ returns db'
insert_event_directly-inserts e db db' h =
    other_error (anyb (has_event_id e.client_event_id) db.events)
      (record db { events = db.events ++ e ∷ [] }) db' h
  where
    other_error :
        (b : Bool) (x y : Database)
        → (if b then throws Failure.transaction_aborted else returns x) ≡ returns y
        → (if b then throws Failure.unique_violation else returns x) ≡ returns y
    other_error true x y k = absurd (cc)
    other_error false x y k = k

abbrev pub as_returned : {A : Type 0} → A → Result Failure A
as_returned x = returns x

pub returns-injective : {A : Type 0} (x y : A) → as_returned x ≡ as_returned y → x ≡ y
returns-injective x y h = cc

Logs-of :
    (p : ScanParams) (now student : ℕ) (t : EventType) (st : AttendanceStatus)
    (db logged : Database) (s0 s : Scanned)
    → insert_event (scan_log p now student t st) db ≡ returns logged
    → s0.db.sessions ≡ logged.sessions
    → s0.db.events ≡ logged.events
    → s0 ≡ s
    → Logs p student db s.db
Logs-of p now student t st db logged s0 s inserted hs he e =
    let event = scan_log p now student t st in
    let same = insert_event-returns event db logged inserted in
    record {
      sessions =
          ap (λ (x : Scanned). x.db.sessions) (sym e) ∙ hs ∙ ap (λ (x : Database). x.sessions) same;
      event = event;
      of_call = scan_log-of_call p now student t st;
      of_student = refl;
      events =
          ap (λ (x : Scanned). x.db.events) (sym e) ∙ he ∙ ap (λ (x : Database). x.events) same;
    }

log_duplicate-Logs :
    (p : ScanParams) (now student : ℕ) (r : AttendanceRecord) (db : Database) (s : Scanned)
    → log_duplicate p now student r db ≡ returns s
    → Logs p student db s.db
log_duplicate-Logs p now student r db s h =
    let e = scan_log p now student EventType.duplicate_qr_scanned r.status in
    let (logged, direct, rest) = bind-returns (insert_event_directly e db) _ _ h in
    let inserted = insert_event_directly-inserts e db logged direct in
    Logs-of p now student EventType.duplicate_qr_scanned r.status db logged
      (record { db = logged; response = ScanResponse.duplicate_scan r }) s inserted refl refl
      (returns-injective _ _ rest)

update_mark-tables :
    (p : ScanParams) (now student : ℕ) (r : AttendanceRecord) (db : Database)
    → ((update_mark p now student r db).sessions ≡ db.sessions)
      × ((update_mark p now student r db).events ≡ db.events)
update_mark-tables p now student r db = elim (Bool-cases (same_status r.status p.status_value)) [
  | inl same ↦ rw same (refl, refl)
  | inr other ↦
      let b =
        on_attendance_corrected-SameBut now r.id p.school_id student r.status p.status_value
          (record db { records = update_by_id r.id (marked_record p now) db.records }) in
      rw other (b.same_sessions, b.same_events)
]

mark_existing-Logs :
    (p : ScanParams) (now student : ℕ) (r : AttendanceRecord) (db : Database) (s : Scanned)
    → mark_existing p now student r db ≡ returns s
    → Logs p student db s.db
mark_existing-Logs p now student r db s h =
    let e = scan_log p now student (scan_event_type p.source) p.status_value in
    let (logged, inserted, rest) = bind-returns (insert_event e db) _ _ h in
    let (a, b) = update_mark-tables p now student r logged in
    Logs-of p now student (scan_event_type p.source) p.status_value db logged
      (record {
        db = update_mark p now student r logged;
        response = ScanResponse.scanned (marked_record p now r);
      })
      s inserted a b (returns-injective _ _ rest)

insert_record-tables :
    (row : ℕ → AttendanceRecord) (db db' : Database)
    → insert_record row db ≡ returns db'
    → (db'.sessions ≡ db.sessions) × (db'.events ≡ db.events)
insert_record-tables row db db' h =
    let r = row db.next_id in
    let e =
      guard_returns (is_some (record_at r.attendance_session_id r.student_id db.records))
        Failure.unique_violation
        (record db { next_id = suc db.next_id; records = db.records ++ r ∷ [] }) db' h in
    (ap (λ (x : Database). x.sessions) e, ap (λ (x : Database). x.events) e)

mark_new-Logs :
    (p : ScanParams) (now student : ℕ) (db : Database) (s : Scanned)
    → mark_new p now student db ≡ returns s
    → Logs p student db s.db
mark_new-Logs p now student db s h =
    let e = scan_log p now student (scan_event_type p.source) p.status_value in
    let (logged, inserted, h1) = bind-returns (insert_event e db) _ _ h in
    let (marked, stored, rest) =
      bind-returns (insert_record (scan_record p now student) logged) _ _ h1 in
    let (a, b) = insert_record-tables (scan_record p now student) logged marked stored in
    Logs-of p now student (scan_event_type p.source) p.status_value db logged
      (record {
        db = marked;
        response = ScanResponse.scanned (scan_record p now student logged.next_id);
      })
      s inserted a b (returns-injective _ _ rest)

pub write_mark-Logs :
    (p : ScanParams) (now student : ℕ) (o : Option AttendanceRecord) (db : Database) (s : Scanned)
    → write_mark p now student o db ≡ returns s
    → Logs p student db s.db
write_mark-Logs p now student none db s h = mark_new-Logs p now student db s h
write_mark-Logs p now student (some r) db s h =
    elim (Bool-cases (is_present_or_late r.status && is_present p.status_value)) [
      | inl again ↦ log_duplicate-Logs p now student r db s (
          subst
            (λ b.
              (if b then log_duplicate p now student r db else mark_existing p now student r db)
              ≡ returns s)
            again h)
      | inr fresh ↦ mark_existing-Logs p now student r db s (
          subst
            (λ b.
              (if b then log_duplicate p now student r db else mark_existing p now student r db)
              ≡ returns s)
            fresh h)
    ]
