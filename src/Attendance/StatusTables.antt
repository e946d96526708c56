-- ===== src/Attendance/StatusTables.antt =====
-- The sessions after an update of a status: the row of the call changes, and no other.
use mathlib.Core.Path.{subst}
use offline_qr_school_attend.Common.{
  ◌≤◌, suc, ◌∷◌, ◌++◌, ℕ, ◌≡◌, ◌≢◌, refl, ap, ◌∙◌, true, false, ◌&&◌, some, List, [], ◌∷◌, map,
  find?, filterb, if◌then◌else◌, arith, ◌⊎◌, inl, inr, Bool-cases,
}
use offline_qr_school_attend.Ingest.Types.{SessionStatus, is_finalized}
use offline_qr_school_attend.Notifications.Absence.{is_session}
use offline_qr_school_attend.Attendance.Status.{
  is_reopened, set_status, with_status, store_status, finalize_records, mark_unmarked_absent,
  log_auto_absent, auto_absent_event, is_unmarked_in, mark_record_absent,
}
use offline_qr_school_attend.Attendance.Types.{StatusParams}
use offline_qr_school_attend.Store.{Session, AttendanceRecord, Database}

log_auto_absent-tables :
    (p : StatusParams) (now : ℕ) (rs : List AttendanceRecord) (db : Database)
    → let db' = log_auto_absent p now rs db in
      (db'.sessions ≡ db.sessions) × (db'.records ≡ db.records) × (db.next_id ≤ db'.next_id)
unfolding log_auto_absent
log_auto_absent-tables p now [] db = (refl, refl, omega arith)
log_auto_absent-tables p now (r ∷ rs) db =
    let (a, b, later) = log_auto_absent-tables p now rs (record db {
      next_id = suc db.next_id;
      events = db.events ++ auto_absent_event p now db.next_id r ∷ [];
    }) in
    (a, b, omega (arith, later))

-- A finalisation that marks the rest absent changes the records of the session, nothing else does.
abbrev pub records_after : StatusParams → ℕ → List AttendanceRecord → List AttendanceRecord
records_after p now records =
    if is_finalized p.new_status && p.auto_mark_absent_for_unmarked
    then map (mark_record_absent p.school_id p.session_id now) records
    else records

finalize_records-tables :
    (p : StatusParams) (now : ℕ) (db : Database)
    → let db' = finalize_records p now db in
      (db'.sessions ≡ db.sessions)
      × (db'.records ≡ records_after p now db.records)
      × (db.next_id ≤ db'.next_id)
unfolding mark_unmarked_absent
finalize_records-tables p now db =
    let (s, r, later) =
      log_auto_absent-tables p now (filterb (is_unmarked_in p.school_id p.session_id) db.records)
        db in
    elim (Bool-cases (is_finalized p.new_status && p.auto_mark_absent_for_unmarked)) [
      | inl marks ↦
          rw marks (s, ap (map (mark_record_absent p.school_id p.session_id now)) r, later)
      | inr keeps ↦ rw keeps (refl, refl, omega arith)
    ]

pub store_status-tables :
    (p : StatusParams) (now : ℕ) (db : Database)
    → let db' = store_status p now db in
      (db'.sessions ≡ map (set_status p now) db.sessions)
      × (db'.records ≡ records_after p now db.records)
      × (db.next_id ≤ db'.next_id)
unfolding store_status
store_status-tables p now db =
    let (s, r, later) = finalize_records-tables p now db in
    (ap (map (set_status p now)) s, r, later)

-- Setting the status of a session keeps its key.
with_status-key :
    (p : StatusParams) (now : ℕ) (x : Session)
    → is_session p.school_id p.session_id (with_status p now x)
      ≡ is_session p.school_id p.session_id x
with_status-key p now x = elim (Bool-cases (is_finalized p.new_status)) [
  | inl final ↦ rw final refl
  | inr other ↦ rw other refl
]

pub find?-set_status :
    (p : StatusParams) (now : ℕ) (ss : List Session) (s : Session)
    → find? (is_session p.school_id p.session_id) ss ≡ some s
    → find? (is_session p.school_id p.session_id) (map (set_status p now) ss)
      ≡ some (with_status p now s)
find?-set_status p now [] s h = absurd (cc)
find?-set_status p now (x ∷ ss) s h = elim (Bool-cases (is_session p.school_id p.session_id x)) [
  | inl same ↦
      let key = with_status-key p now x ∙ same in
      let e : x ≡ s = cc (h, same) in rw same (rw key (ap (λ t. some (with_status p now t)) e))
  | inr other ↦ rw other (
      rw other (
        find?-set_status p now ss s (
          subst
            (λ b. (if b then some x else find? (is_session p.school_id p.session_id) ss) ≡ some s)
            other h)))
]

pub finalized-cases :
    (c : SessionStatus)
    → ((c ≡ SessionStatus.finalized) × (is_finalized c ≡ true))
      ⊎ ((c ≢ SessionStatus.finalized) × (is_finalized c ≡ false))
finalized-cases SessionStatus.draft = inr (λ e. cc, refl)
finalized-cases SessionStatus.opened = inr (λ e. cc, refl)
finalized-cases SessionStatus.review = inr (λ e. cc, refl)
finalized-cases SessionStatus.finalized = inl (refl, refl)
finalized-cases SessionStatus.reopened = inr (λ e. cc, refl)

pub reopened-cases :
    (c : SessionStatus)
    → ((c ≡ SessionStatus.reopened) × (is_reopened c ≡ true))
      ⊎ ((c ≢ SessionStatus.reopened) × (is_reopened c ≡ false))
reopened-cases SessionStatus.draft = inr (λ e. cc, refl)
reopened-cases SessionStatus.opened = inr (λ e. cc, refl)
reopened-cases SessionStatus.review = inr (λ e. cc, refl)
reopened-cases SessionStatus.finalized = inr (λ e. cc, refl)
reopened-cases SessionStatus.reopened = inl (refl, refl)
