-- ===== src/Attendance/AutoAbsent.antt =====
-- What a finalisation leaves unmarked.
use mathlib.Core.Path.{subst}
use offline_qr_school_attend.Common.{
  ℕ, ◌≡◌, sym, true, false, List, [], ◌∷◌, map, arith, All, inl, inr, Bool-cases,
}
use offline_qr_school_attend.Common.Result.{returns}
use offline_qr_school_attend.Directory.{Directory}
use offline_qr_school_attend.Ingest.Types.{SessionStatus}
use offline_qr_school_attend.Notifications.Absence.{Clock}
use offline_qr_school_attend.Attendance.Status.{
  is_unmarked_in, mark_record_absent, finalize_attendance_session,
}
use offline_qr_school_attend.Attendance.Transitions.{update_session_status-Stored}
use offline_qr_school_attend.Attendance.Types.{StatusParams}
use offline_qr_school_attend.Store.{AttendanceRecord, Database}

mark_record_absent-unmarked :
    (school session now : ℕ) (r : AttendanceRecord)
    → is_unmarked_in school session (mark_record_absent school session now r) ≡ false
mark_record_absent-unmarked school session now r =
    elim (Bool-cases (is_unmarked_in school session r)) [
      | inl marks ↦ rw marks (ground arith)
      | inr keeps ↦ rw keeps keeps
    ]

mark_record_absent_throughout :
    (school session now : ℕ) (rs : List AttendanceRecord)
    → All
        (λ r. is_unmarked_in school session r ≡ false)
        (map (mark_record_absent school session now) rs)
mark_record_absent_throughout school session now [] = tt
mark_record_absent_throughout school session now (r ∷ rs) = (
  mark_record_absent-unmarked school session now r,
  mark_record_absent_throughout school session now rs,
)

-- A finalisation that succeeds and was asked to mark the rest absent leaves no record of the session
-- unmarked.
pub finalize_attendance_session-unmarked :
    (clock : Clock) (dir : Directory) (p : StatusParams) (db db' : Database)
    → p.auto_mark_absent_for_unmarked ≡ true
    → finalize_attendance_session clock dir p db ≡ returns db'
    → All (λ r. is_unmarked_in p.school_id p.session_id r ≡ false) db'.records
unfolding finalize_attendance_session
finalize_attendance_session-unmarked clock dir p db db' auto h =
    let u =
      update_session_status-Stored clock dir (record p { new_status = SessionStatus.finalized }) db
        db' h in
    subst (All (λ r. is_unmarked_in p.school_id p.session_id r ≡ false)) (sym u.records)
      (rw auto (mark_record_absent_throughout p.school_id p.session_id clock.now db.records))
