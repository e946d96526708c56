-- ===== src/Sync/Later.antt =====
-- What an event of a batch leaves for a later one: the sessions, and an event log that has only grown.
use offline_qr_school_attend.Common.{
  ℕ, ◌≡◌, refl, ◌∙◌, Bool, Option, none, some, find?, inl, inr, Bool-cases,
}
use offline_qr_school_attend.Attendance.Tables.{is_school_record}
use offline_qr_school_attend.Attendance.Types.{Failure}
use offline_qr_school_attend.Store.{AttendanceRecord, AttendanceEvent}
use offline_qr_school_attend.Sync.Types.{SyncEventPayload, SyncDb}
use offline_qr_school_attend.Sync.Events.{
  set_conflict, is_locked, conflict_of_student, preserve_conflict,
}
use offline_qr_school_attend.Sync.Mapped.{SameSessions}

-- The sessions stay, and the event log loses none that is found in it.
pub record Later (a b : SyncDb) : Type 0 where
  pub sessions : SameSessions a b
  pub keeps :
      (q : AttendanceEvent → Bool) (e : AttendanceEvent)
      → find? q a.attendance.events ≡ some e
      → find? q b.attendance.events ≡ some e

pub Later-refl : (a : SyncDb) → Later a a
Later-refl a = record {
  sessions = record { same_clients = refl; same_sessions = refl };
  keeps = λ q e h. h;
}

pub Later-trans : (a b c : SyncDb) → Later a b → Later b c → Later a c
Later-trans a b c h k = record {
  sessions = record {
    same_clients = k.sessions.same_clients ∙ h.sessions.same_clients;
    same_sessions = k.sessions.same_sessions ∙ h.sessions.same_sessions;
  };
  keeps = λ q e f. k.keeps q e (h.keeps q e f);
}

set_conflict-Later : (o : Option AttendanceRecord) (db : SyncDb) → Later db (set_conflict o db)
set_conflict-Later none db = Later-refl db
set_conflict-Later (some r) db = record {
  sessions = record { same_clients = refl; same_sessions = refl };
  keeps = λ q e h. h;
}

conflict_of_student-Later :
    (school session : ℕ) (o : Option ℕ) (db : SyncDb)
    → Later db (conflict_of_student school session o db)
conflict_of_student-Later school session none db = Later-refl db
conflict_of_student-Later school session (some student) db =
    set_conflict-Later (find? (is_school_record school session student) db.attendance.records) db

pub preserve_conflict-Later :
    (school session : ℕ) (e : SyncEventPayload) (f : Failure) (db : SyncDb)
    → Later db (preserve_conflict school session e f db)
unfolding preserve_conflict
preserve_conflict-Later school session e f db = elim (Bool-cases (is_locked f)) [
  | inl locked ↦ rw locked (conflict_of_student-Later school session e.student_id db)
  | inr other ↦ rw other (Later-refl db)
]
