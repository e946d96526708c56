-- ===== src/Sync/Roster.antt =====
-- `getOfflineRosterPackage`: the students of a class, with the digests of their cards.
use text.Mathlib.Text.{◌==◌ as str_eq}
use offline_qr_school_attend.Common.{
  ℕ, Bool, true, false, ◌&&◌, ◌||◌, Option, none, some, List, [], ◌∷◌, map, ◌==◌, anyb, find?, elem,
  if◌then◌else◌,
}
use offline_qr_school_attend.Common.Result.{Result, returns, ◌>>=◌, ◌>>◌, require, or_throw}
use offline_qr_school_attend.Directory.{Directory, QrCredential, UserRole, is_admin}
use offline_qr_school_attend.Attendance.Access.{is_assignment}
use offline_qr_school_attend.Attendance.Sessions.{active_enrollments, enrolled_student}

pub record ClassSection : Type 0 where
  pub id : ℕ
  pub school_id : ℕ

pub data RosterError : Type 0 where
  class_section_not_found unauthorized_teacher_not_assigned : RosterError

pub record RosterStudent : Type 0 where
  pub student_id : ℕ
  pub sha256_token_hash : Option ℕ
  pub is_revoked : Bool

pub record RosterPackage : Type 0 where
  pub school_id : ℕ
  pub class_section_id : ℕ
  pub downloaded_at : ℕ
  pub students : List RosterStudent

abbrev pub is_section : ℕ → ℕ → ClassSection → Bool
is_section school section c = c.id == section && c.school_id == school

-- A call without an actor or a role is not asked for an assignment.
abbrev pub may_read : Directory → ℕ → ℕ → Option ℕ → Option UserRole → Bool
may_read dir school section none role = true
may_read dir school section (some actor) none = true
may_read dir school section (some actor) (some role) =
    is_admin role || anyb (is_assignment school section actor) dir.teacher_assignments

abbrev pub is_active_card : ℕ → List ℕ → QrCredential → Bool
is_active_card school students c =
    c.school_id == school && (str_eq c.status "ACTIVE" && elem c.student_id students)

-- The entry of a student in `qrMap`: the last card that is selected.
abbrev pub card_of : ℕ → List ℕ → ℕ → List QrCredential → Option QrCredential
card_of school students student [] = none
card_of school students student (c ∷ cs) = last (card_of school students student cs)
  where
    last : Option QrCredential → Option QrCredential
    last (some later) = some later
    last none = if is_active_card school students c && c.student_id == student then some c else none

abbrev pub card_digest : Option QrCredential → Option ℕ
card_digest none = none
card_digest (some c) = some c.token_digest

abbrev pub is_revoked_card : Option QrCredential → Bool
is_revoked_card none = false
is_revoked_card (some c) = str_eq c.status "REVOKED"

abbrev pub roster_student : Directory → ℕ → List ℕ → ℕ → RosterStudent
roster_student dir school students student =
    let card = card_of school students student dir.qr_credentials in
    record {
      student_id = student;
      sha256_token_hash = card_digest card;
      is_revoked = is_revoked_card card;
    }

unfoldable pub get_offline_roster_package :
    Directory
    → List ClassSection
    → ℕ
    → ℕ
    → Option ℕ
    → Option UserRole
    → ℕ
    → Result RosterError RosterPackage
unfolding active_enrollments
get_offline_roster_package dir sections school section actor role now = do
  c ← or_throw (find? (is_section school section) sections) RosterError.class_section_not_found
  require (may_read dir school section actor role) RosterError.unauthorized_teacher_not_assigned
  let students = map enrolled_student (active_enrollments dir school section) in
      returns (record {
        school_id = school;
        class_section_id = section;
        downloaded_at = now;
        students = map (roster_student dir school students) students;
      })
