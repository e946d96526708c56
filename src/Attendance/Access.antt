-- ===== src/Attendance/Access.antt =====
-- `verifyTeacherAssignment`
use offline_qr_school_attend.Common.{ℕ, Bool, true, ◌&&◌, ◌||◌, ◌==◌, anyb}
use offline_qr_school_attend.Common.Result.{Result, require}
use offline_qr_school_attend.Directory.{Directory, TeacherAssignment, UserRole, is_admin}
use offline_qr_school_attend.Attendance.Types.{Failure}

-- `['SUPER_ADMIN', 'SCHOOL_ADMIN', 'SYSTEM'].includes(userRole)`
abbrev pub is_exempt : UserRole → Bool
is_exempt UserRole.system = true
is_exempt role = is_admin role

abbrev pub is_assignment : ℕ → ℕ → ℕ → TeacherAssignment → Bool
is_assignment school section actor a =
    a.school_id == school && (a.teacher_id == actor && a.class_section_id == section)

-- The actor may act on the section.
abbrev pub may_act : Directory → ℕ → ℕ → ℕ → UserRole → Bool
may_act dir school section actor role =
    is_exempt role || anyb (is_assignment school section actor) dir.teacher_assignments

abbrev pub verify_teacher_assignment : Directory → ℕ → ℕ → ℕ → UserRole → Result Failure (Unit {0})
verify_teacher_assignment dir school section actor role =
    require (may_act dir school section actor role) Failure.unauthorized_teacher_not_assigned
