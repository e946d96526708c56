-- ===== src/Directory.antt =====
-- The tables of src/db/schema.ts that the attendance services only read, and the roles of
-- src/auth/permissions.ts with the SYSTEM actor of the background jobs.
use Prim.Native.String.{String}
use offline_qr_school_attend.Common.{ℕ, Bool, true, false, Option, List}

pub data UserRole : Type 0 where
  super_admin school_admin teacher rfid_operator report_viewer system : UserRole

-- `['SUPER_ADMIN', 'SCHOOL_ADMIN'].includes(role)`
abbrev pub is_admin : UserRole → Bool
is_admin UserRole.super_admin = true
is_admin UserRole.school_admin = true
is_admin _ = false

pub record TeacherAssignment : Type 0 where
  pub school_id : ℕ
  pub teacher_id : ℕ
  pub class_section_id : ℕ

pub record Student : Type 0 where
  pub id : ℕ
  pub school_id : ℕ
  pub status : String

pub record Enrollment : Type 0 where
  pub id : ℕ
  pub school_id : ℕ
  pub student_id : ℕ
  pub class_section_id : ℕ
  pub status : String

pub record QrCredential : Type 0 where
  pub school_id : ℕ
  pub student_id : ℕ
  pub token_digest : ℕ
  pub status : String

-- A row of `guardians` joined with its row of `student_guardians`.
pub record Guardian : Type 0 where
  pub school_id : ℕ
  pub student_id : ℕ
  pub is_primary : Bool
  pub phone_number : List ℕ
  pub sms_opt_out : Bool

pub record SmsSettings : Type 0 where
  pub sms_enabled : Bool
  pub allowlist_enabled : Bool
  pub allowlist : List (List ℕ)

pub record Directory : Type 0 where
  pub teacher_assignments : List TeacherAssignment
  pub students : List Student
  pub enrollments : List Enrollment
  pub qr_credentials : List QrCredential
  pub guardians : List Guardian
  pub sms_settings : ℕ → Option SmsSettings
