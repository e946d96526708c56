-- ===== src/Worker/Guards.antt =====
-- The guards of `processClaimedJob` of src/services/notificationWorker.ts, before a message is sent.

use offline_qr_school_attend.Common.{
  ℕ, Bool, true, false, ◌&&◌, ◌||◌, not, Option, none, some, List, [], ◌∷◌, ◌==◌, ltb, find?,
  is_some, if◌then◌else◌,
}
use offline_qr_school_attend.Common.Result.{Result, throws, returns, ◌>>◌, require}
use offline_qr_school_attend.Notifications.Absence.{is_empty, same_text}
use offline_qr_school_attend.Notifications.Jobs.{is_absence, is_absent}
use offline_qr_school_attend.Notifications.Privacy.{ConsentPurpose, has_consent}
use offline_qr_school_attend.Notifications.Sms.{estimate_sms_segments}
use offline_qr_school_attend.Store.{AttendanceRecord}
use offline_qr_school_attend.Worker.Types.{
  FailureReason, QueuedJob, WorkerSettings, Surroundings, SmsProvider, is_active,
}

-- The settings of a school that has none yet, outside production.
abbrev pub effective_settings : Option WorkerSettings → WorkerSettings
effective_settings none = record {
  sms_enabled = true;
  dlt_principal_entity_id = [];
  dlt_header = [];
  max_segments_per_message = 4;
  segment_balance = none;
}
effective_settings (some s) = s

-- A guard that ends the job: cancelled, or failed for good with an attempt counted.
pub data Stop : Type 0 where
  cancel : FailureReason → Stop
  give_up : FailureReason → Stop

abbrev has_record_id : ℕ → AttendanceRecord → Bool
has_record_id id r = r.id == id

abbrev pub is_cleared : Option AttendanceRecord → Bool
is_cleared none = false
is_cleared (some r) = not (is_absent r.status)

abbrev pub linked_is_cleared : Option ℕ → List AttendanceRecord → Bool
linked_is_cleared none records = false
linked_is_cleared (some id) records = is_cleared (find? (has_record_id id) records)

-- The linked record of an absence job is no longer ABSENT.
unfoldable pub has_changed : List AttendanceRecord → QueuedJob → Bool
has_changed records j = is_absence j.kind && linked_is_cleared j.attendance_record_id records

unfoldable pub consent_granted : Surroundings → QueuedJob → Bool
unfolding has_consent
consent_granted w j =
    has_consent
      (record {
        school_id = j.school_id;
        student_id = j.student_id;
        purpose = ConsentPurpose.absence_sms;
      })
      w.consents

abbrev text_opted_out : List ℕ
text_opted_out =
    b'G' ∷ b'U' ∷ b'A' ∷ b'R' ∷ b'D' ∷ b'I' ∷ b'A' ∷ b'N' ∷ b'_' ∷ b'O' ∷ b'P' ∷ b'T' ∷ b'E' ∷ b'D'
    ∷ b'_' ∷ b'O' ∷ b'U' ∷ b'T' ∷ []

abbrev text_missing_phone : List ℕ
text_missing_phone =
    b'M' ∷ b'I' ∷ b'S' ∷ b'S' ∷ b'I' ∷ b'N' ∷ b'G' ∷ b'_' ∷ b'G' ∷ b'U' ∷ b'A' ∷ b'R' ∷ b'D' ∷ b'I'
    ∷ b'A' ∷ b'N' ∷ b'_' ∷ b'P' ∷ b'H' ∷ b'O' ∷ b'N' ∷ b'E' ∷ []

abbrev text_not_in_allowlist : List ℕ
text_not_in_allowlist =
    b'P' ∷ b'H' ∷ b'O' ∷ b'N' ∷ b'E' ∷ b'_' ∷ b'N' ∷ b'O' ∷ b'T' ∷ b'_' ∷ b'I' ∷ b'N' ∷ b'_' ∷ b'A'
    ∷ b'L' ∷ b'L' ∷ b'O' ∷ b'W' ∷ b'L' ∷ b'I' ∷ b'S' ∷ b'T' ∷ []

-- The reason that the creation of the job has written in place of a message.
unfoldable pub marker : List ℕ → Option FailureReason
marker body =
    if same_text body text_opted_out
    then some FailureReason.guardian_opted_out
    else (if same_text body text_missing_phone
        then some FailureReason.missing_guardian_phone
        else (if same_text body text_not_in_allowlist
            then some FailureReason.phone_not_in_allowlist
            else none))

abbrev pub require_none : Option FailureReason → Result Stop (Unit {0})
require_none none = returns tt
require_none (some reason) = throws (Stop.cancel reason)

unfoldable pub segments_of_body : QueuedJob → ℕ
unfolding estimate_sms_segments
segments_of_body j = (estimate_sms_segments j.message_body).segment_count

abbrev pub lacks_dlt : WorkerSettings → Bool
lacks_dlt s = is_empty s.dlt_principal_entity_id || is_empty s.dlt_header

-- A limit of 0 is none.
abbrev pub is_too_long : WorkerSettings → ℕ → Bool
is_too_long s n = ltb 0 s.max_segments_per_message && ltb s.max_segments_per_message n

-- The guards, in their order.
unfoldable pub check_job :
    Surroundings → SmsProvider → Option WorkerSettings → QueuedJob → Result Stop (Unit {0})
unfolding has_changed consent_granted marker segments_of_body
check_job w provider settings j = do
  require (is_active (w.school_status j.school_id)) (Stop.cancel FailureReason.school_disabled)
  require (is_some settings || not w.production) (Stop.give_up FailureReason.sms_settings_required)
  require (effective_settings settings).sms_enabled (Stop.cancel FailureReason.sms_disabled)
  require (not (has_changed w.records j)) (Stop.cancel FailureReason.status_changed)
  require (consent_granted w j) (Stop.cancel FailureReason.no_consent)
  require_none (marker j.message_body)
  require (not (w.production && (not provider.is_fake && lacks_dlt (effective_settings settings))))
      (Stop.give_up FailureReason.dlt_configuration_required)
  require (not (is_too_long (effective_settings settings) (segments_of_body j)))
      (Stop.give_up FailureReason.sms_segment_limit_exceeded)
