-- ===== src/Worker/Types.antt =====
-- The tables that src/services/notificationWorker.ts reads and writes, with the columns that it
-- uses, and the messages of the provider. A DLT identifier that is not set is the empty text.
use Prim.Native.String.{String}
use text.Mathlib.Text.{◌==◌ as str_eq}
use offline_qr_school_attend.Common.{ℕ, Bool, false, Option, none, some, List, ◌==◌, if◌then◌else◌}
use offline_qr_school_attend.Notifications.Privacy.{GuardianConsent}
use offline_qr_school_attend.Store.{AttendanceRecord, JobStatus, JobKind}

pub data FailureReason : Type 0 where
  school_disabled sms_settings_required sms_disabled status_changed no_consent : FailureReason
  guardian_opted_out missing_guardian_phone phone_not_in_allowlist : FailureReason
  dlt_configuration_required sms_segment_limit_exceeded sms_balance_exceeded : FailureReason
  -- The message of the provider, or of an error that was thrown.
  message : List ℕ → FailureReason

pub record QueuedJob : Type 0 where
  pub id : ℕ
  pub school_id : ℕ
  pub student_id : ℕ
  pub recipient_phone : List ℕ
  pub language : String
  pub message_body : List ℕ
  pub status : JobStatus
  pub notification_type : JobKind
  pub attempt_count : ℕ
  pub failure_reason : Option FailureReason
  pub provider_message_id : Option ℕ
  pub claimed_at : Option ℕ
  pub claimed_by : Option ℕ
  pub next_attempt_at : Option ℕ
  pub queued_at : ℕ
  pub sent_at : Option ℕ
  pub send_after : Option ℕ
  pub attendance_record_id : Option ℕ
  pub kind : JobKind

pub record Attempt : Type 0 where
  pub job_id : ℕ
  pub attempt_number : ℕ
  pub status : JobStatus
  pub error_message : Option FailureReason

pub record WorkerSettings : Type 0 where
  pub sms_enabled : Bool
  pub dlt_principal_entity_id : List ℕ
  pub dlt_header : List ℕ
  pub max_segments_per_message : ℕ
  pub segment_balance : Option ℕ

-- The tables that the worker writes. The column school_id of `school_sms_settings` is unique, so
-- that table is a function of the school.
pub record WorkerDb : Type 0 where
  pub jobs : List QueuedJob
  pub attempts : List Attempt
  pub settings : ℕ → Option WorkerSettings

pub record Template : Type 0 where
  pub school_id : ℕ
  pub template_code : JobKind
  pub language : String
  pub dlt_template_id : List ℕ

-- The tables that it reads, and NODE_ENV.
pub record Surroundings : Type 0 where
  pub production : Bool
  pub school_status : ℕ → Option String
  pub records : List AttendanceRecord
  pub consents : List GuardianConsent
  pub templates : List Template

pub record SmsSendParams : Type 0 where
  pub to : List ℕ
  pub text : List ℕ
  pub dlt_principal_entity_id : List ℕ
  pub dlt_header : List ℕ
  pub dlt_template_id : List ℕ
  pub job_id : ℕ

-- What `sendSms` comes back with: a result, or an error that it throws.
pub data SmsReply : Type 0 where
  accepted : Option ℕ → SmsReply
  refused : List ℕ → Bool → SmsReply
  crashed : List ℕ → SmsReply

-- A provider, whose replies may differ from call to call: the number is that of the call.
pub record SmsProvider : Type 0 where
  pub is_fake : Bool
  pub send_sms : ℕ → SmsSendParams → SmsReply

abbrev pub is_active : Option String → Bool
is_active none = false
is_active (some s) = str_eq s "ACTIVE"

-- `update … where id = …`
abbrev pub update_if : ℕ → (QueuedJob → QueuedJob) → QueuedJob → QueuedJob
update_if id f j = if j.id == id then f j else j
