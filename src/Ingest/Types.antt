-- ===== src/Ingest/Types.antt =====
-- The types of src/services/rfid/ingest/types.ts. Identifiers and digests are only compared, so a
-- number stands for each; an instant is a number of milliseconds; a calendar date is a number too.
use Prim.Native.String.{String}
use offline_qr_school_attend.Common.{ℕ, Bool, true, false, Option, List}
use offline_qr_school_attend.Common.Maps.{Map}

pub data Decision : Type 0 where
  accepted already_present duplicate_in_batch duplicate_debounced malformed_read : Decision
  future_skew wrong_school_day unregistered_card suspended_card credential_orphaned : Decision
  student_inactive not_enrolled school_closed session_finalized no_teacher_assigned : Decision
  no_active_session manual_override_preserved : Decision

-- Membership in `ACCEPTED_DECISIONS` and `DUPLICATE_DECISIONS`.
unfoldable pub in_accepted_decisions : Decision → Bool
in_accepted_decisions Decision.accepted = true
in_accepted_decisions Decision.already_present = true
in_accepted_decisions _ = false

unfoldable pub in_duplicate_decisions : Decision → Bool
in_duplicate_decisions Decision.duplicate_in_batch = true
in_duplicate_decisions Decision.duplicate_debounced = true
in_duplicate_decisions _ = false

-- `decision === 'ACCEPTED'`
abbrev pub is_accepted : Decision → Bool
is_accepted Decision.accepted = true
is_accepted _ = false

pub data Freshness : Type 0 where
  fresh missing_timestamp future_skew wrong_school_day late_buffered : Freshness

pub data ReviewFlag : Type 0 where
  late_buffered server_time : ReviewFlag

pub data TimeSource : Type 0 where
  reader server : TimeSource

pub record NormalizedRead : Type 0 where
  pub index : ℕ
  pub epc_digest : ℕ
  pub epc_last4 : List ℕ
  pub tid_digest : Option ℕ
  pub antenna : Option ℕ
  pub rssi : Option ℕ
  pub read_at : ℕ
  pub time_source : TimeSource
  pub freshness : Freshness
  pub idempotency_key : ℕ

pub data MalformedReason : Type 0 where
  missing_epc invalid_epc : MalformedReason

pub record MalformedRead : Type 0 where
  pub index : ℕ
  pub reason : MalformedReason

pub record CredentialRow : Type 0 where
  pub id : ℕ
  pub student_id : ℕ
  pub epc_digest : ℕ
  pub status : String

pub record StudentRow : Type 0 where
  pub id : ℕ
  pub status : String

pub record EnrollmentRow : Type 0 where
  pub student_id : ℕ
  pub class_section_id : ℕ

-- `SessionStatus` of src/services/attendanceService.ts, which the session rows hold.
pub data SessionStatus : Type 0 where
  draft opened review finalized reopened : SessionStatus

abbrev pub is_finalized : SessionStatus → Bool
is_finalized SessionStatus.finalized = true
is_finalized _ = false

pub record SessionRow : Type 0 where
  pub id : ℕ
  pub class_section_id : ℕ
  pub status : SessionStatus

pub record IngestContext : Type 0 where
  pub school_id : ℕ
  pub school_date : ℕ
  pub is_school_day : Bool
  pub debounced : List ℕ
  pub creds_by_digest : Map CredentialRow
  pub students_by_id : Map StudentRow
  pub enrollment_by_student : Map EnrollmentRow
  pub session_by_section : Map SessionRow
  pub teacher_by_section : Map ℕ

pub record Outcome : Type 0 where
  pub index : ℕ
  pub decision : Decision
  pub read : Option NormalizedRead
  pub student_id : Option ℕ
  pub class_section_id : Option ℕ
  pub credential_id : Option ℕ
  pub needs_session : Bool
  pub review_flag : Option ReviewFlag
